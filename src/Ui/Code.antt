-- ===== src/Ui/Code.antt =====
-- The result codes of ui/ui_common.h.
use frameworks_system_ota.Prelude.{Bool, true, false}

-- `ui_result_code_e`
pub data Code : Type 0 where
  success : Code
  file_parse_error page_name_null page_not_found user_data_null page_data_null : Code
  file_path_null lv_obj_null lv_obj_child_null image_buff_null file_read_error : Code
  file_content_invalid : Code

-- Every code but UI_SUCCESS is negative.
abbrev pub is_success : Code → Bool
is_success success = true
is_success _ = false
