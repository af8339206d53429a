-- ===== src/ErrorCode.antt =====
-- src/redis/redis_errorcode.hpp: the numbers of the databases, the codes of a reply, and the 200 of
-- success. The handlers use neither the numbers nor the last two codes.
use redis_rest.Base.{ℕ}
use redis_rest.Base.Int.{ℤ, pos, neg}

abbrev pub success : ℤ
success = pos 200

abbrev pub json_read_or_write_error : ℤ
json_read_or_write_error = neg 8010

abbrev pub create_session_unknown_error : ℤ
create_session_unknown_error = neg 8020

abbrev pub create_session_key_exist : ℤ
create_session_key_exist = neg 8025

abbrev pub add_userid_under_session_unknown_error : ℤ
add_userid_under_session_unknown_error = neg 8030

abbrev pub add_userid_key_not_exist : ℤ
add_userid_key_not_exist = neg 8035

abbrev pub delete_session_unknown_error : ℤ
delete_session_unknown_error = neg 8040

abbrev pub delete_session_key_not_exist : ℤ
delete_session_key_not_exist = neg 8045

abbrev pub query_session_unknown_error : ℤ
query_session_unknown_error = neg 8050

abbrev pub query_session_key_not_exist : ℤ
query_session_key_not_exist = neg 8055

abbrev pub update_session_deadline_unknown_error : ℤ
update_session_deadline_unknown_error = neg 8060

abbrev pub batch_create_areas_unknown_error : ℤ
batch_create_areas_unknown_error = neg 8080

abbrev pub unknown_error : ℤ
unknown_error = neg 8085

abbrev pub kv_sys_params : ℕ
kv_sys_params = 0

abbrev pub kv_mf : ℕ
kv_mf = 1

abbrev pub kv_session : ℕ
kv_session = 2

abbrev pub kv_visit_records : ℕ
kv_visit_records = 3

abbrev pub kv_shopping_cart : ℕ
kv_shopping_cart = 4

abbrev pub kv_obj_snapshot : ℕ
kv_obj_snapshot = 5

abbrev pub kv_operation_log : ℕ
kv_operation_log = 6

abbrev pub update_session_deadline_key_not_exist : ℤ
update_session_deadline_key_not_exist = neg 8065

abbrev pub batch_create_areas_key_exist : ℤ
batch_create_areas_key_exist = neg 8070
