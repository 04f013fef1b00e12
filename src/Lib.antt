-- ===== src/Lib.antt =====
-- The over-the-air update of a device with two slots: the boot loader and its control program
-- (bootctl/bootctl.c), the verifiers of signed packages (verify/zip_verify.c) and of partitions
-- (verify/avb_main.c), and the program that shows the progress of an upgrade (ui/ui_ota.c,
-- ui/ui_display.c, ui/ui_config_parse.c, ui/extra/lv_upgrade.c).
--
-- The parts and how they interact. The programs share no memory. The boot loader and `bootctl`
-- share seven flags in the key-value database: the flags say which slot is active, bootable and
-- successful, and whether a new slot is being tried. The updater writes two numbers into the same
-- database, and `otaUI` polls them. The verifier of packages reads a package and a key and answers
-- with its exit status. A package is a zip file with a signing block of the APK format, scheme 2.
--
-- Bootctl models bootctl/bootctl.c. Kvdb is the database as a parameter, with what a successful
-- set and a commit do as hypotheses. State has `bootctl_s`; Config `bootctl_write_config` and
-- `bootctl_read_config`, which stop at the first failed call; Ap `bootctl_active`,
-- `bootctl_update`, `bootctl_done` and `bootctl_success`; Loader `bootctl_boot` with its labels;
-- Main `main` in the two builds. What a function does to the flags is separate from its reads and
-- writes. Machine says what the calls are for, with a running and a spare image in place of the
-- flags of slots A and B, and Refine relates the code on the database to it. Protocol is the order of calls in README.md as a step
-- relation, with resets at any time between two calls; a reset inside a write is not modelled.
--
-- Verify models verify/zip_verify.c and verify/avb_main.c. Platform has the parameters: files,
-- `malloc` and `stat` (Os), libavb (Avb) and minizip (Unzip). A file is the list of its bytes and
-- does not change. The target is little endian with a 64-bit `off_t`. Block and AppBlock parse the
-- package, Digest computes the digest of the contents, App decides. Digest/Spec says what the
-- digest of a file is, without buffers and short reads, AppBlock/Layout where the parts of a
-- package are in its file, and Block/Signer how a signer is laid out in a signing block, with the
-- reads at an offset in Block/Place. AvbMain models verify/avb_main.c, over libavb and what
-- `getopt` returns. A read outside a buffer is `none`. A jump to `error` returns what `res` holds
-- there.
-- The loop of `md_one_chunk` runs on fuel: the length of the chunk, which is enough, since a round
-- reads at least one byte or leaves the loop.
--
-- Ota models ui/ui_ota.c: Progress is `ota_calc_progress` with its static counters, Property the
-- database, Main the options and the loop. A run of the loop is a function of the databases that
-- its rounds find. Ui models ui/ui_display.c and ui/ui_config_parse.c: Lvgl is LVGL's tree of
-- objects as a parameter, Build the calls that make objects, Display the search and the flags of
-- pages, Refresh the way to the widget. Config is the configuration: Env has all its parameters,
-- with cJSON in Cjson; Files reads files, Objects places an object, Widgets makes the widget and the
-- label, Pages goes from an object to the whole file. Schema says which configurations are accepted,
-- apart from the code, and Tree, Created and View what the screen's pages are. Widget models
-- ui/extra/lv_upgrade.c: Value the digits, Data and Images the setters, Closest the choice of an
-- image, Layout the size, Anim the frames of an animation, Render the draw calls and the events,
-- Free the destructor. Main/Program of Ota is `main` with the configuration before the loop. A
-- read outside the image array, through a null pointer or of memory that was not initialised, and
-- a division by zero, is `none`. Integers keep their wrap-around: `uint32_t`, `int`, `int8_t` and
-- `uint8_t` are written out with `% 2 ^ w`; coordinates on the screen are integers without a
-- bound.
--
-- Taken for granted: the configured time between two synchronisations is not 0, since the loop
-- divides by it, and a value of the database fits in the 16 bytes that ota_upgrade_prop_get of
-- ui/ui_ota.c has for it. The members arc and anim_data of a union in ui/extra/lv_upgrade.h are used
-- with different types of the widget and are kept apart, anim_data with what the draw calls keep: a
-- widget whose type is changed from one of the two to the other is not modelled.
--
-- Not modelled: what LVGL draws, pixels, and the running of an animation; log lines, sleeps, and
-- allocations by LVGL and `strdup`, which are taken to succeed; the host tools under tools/, and
-- the build.
pub mod Prelude
pub mod Bootctl
pub mod Verify
pub mod Ota
pub mod Widget
pub mod Ui
mod Tests
