-- ===== src/Widget/Value/Sync.antt =====
-- The byte `value` and the digits of the widget of ui/extra/lv_upgrade.c.
use frameworks_system_ota.Prelude.{ℕ, ◌<◌, ◌≡◌, ◌∙◌, sym, true, inl, inr, arith, Bool-cases}
use frameworks_system_ota.Prelude.Int.{ℤ, pos}
use frameworks_system_ota.Widget.Value.{
  Shown, initial, set_value, lv_upgrade_get_value, digit_count, write_digits, int32_of, int8_of,
  is_shown,
}
use frameworks_system_ota.Widget.Value.Digits.{sum-write}

-- A byte that is not negative is the number that the digits show.
pub record IsSynced (s : Shown) : Type 0 where
  pub agree : (n : ℕ) → s.value ≡ pos n → lv_upgrade_get_value s ≡ n

pub initial-IsSynced : IsSynced initial
unfolding initial
initial-IsSynced = record { agree = λ n h. cc }

is_shown-eq : (value : ℤ) (new : ℕ) → is_shown value new ≡ true → value ≡ pos new
unfolding is_shown
is_shown-eq value new h = ground arith

written : (new : ℕ) (s : Shown) → Shown
written new s = record { progress = write_digits digit_count (int32_of new); value = int8_of new }

get-written : (new : ℕ) (s : Shown) → new < 128 → lv_upgrade_get_value (written new s) ≡ new
unfolding written lv_upgrade_get_value
get-written new s h = omega (arith, sum-write new)

int8_small : (new n : ℕ) → new < 128 → int8_of new ≡ pos n → n ≡ new
unfolding int8_of
int8_small new n h e = ground arith

-- From a synced state and for a value below 128: `lv_upgrade_get_value` returns the value that was
-- set, whether `lv_upgrade_set_progress` wrote it or left early, and the state is synced again.
pub set-get :
    (new : ℕ) (s : Shown)
    → new < 128
    → IsSynced s
    → (lv_upgrade_get_value (set_value new s).1 ≡ new) × IsSynced (set_value new s).1
unfolding set_value lv_upgrade_get_value written
set-get new s h sync = elim (Bool-cases (is_shown s.value new)) [
  | inl same ↦ rw (same, set_value) (sync.agree new (is_shown-eq s.value new same), sync)
  | inr fresh ↦
      rw (fresh, set_value)
        (
          get-written new s h,
          record { agree = λ n e. get-written new s h ∙ sym (int8_small new n h e) },
        )
]
