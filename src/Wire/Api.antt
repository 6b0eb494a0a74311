-- ===== src/Wire/Api.antt =====
-- src/wire/api.h: the API keys. A key off the wire is any 16-bit number, so a key is a number.
use log_engine.Prelude.{ℕ, Bool, ◌&&◌, ltb, leb}

abbrev pub produce_key : ℕ
produce_key = 0

abbrev pub fetch_key : ℕ
fetch_key = 1

abbrev pub metadata_key : ℕ
metadata_key = 2

abbrev pub list_offsets_key : ℕ
list_offsets_key = 3

abbrev pub offset_commit_key : ℕ
offset_commit_key = 4

abbrev pub request_vote_key : ℕ
request_vote_key = 100

abbrev pub append_entries_key : ℕ
append_entries_key = 101

abbrev pub install_snapshot_key : ℕ
install_snapshot_key = 102

abbrev pub echo_key : ℕ
echo_key = 1000

abbrev pub is_broker_api : ℕ → Bool
is_broker_api key = leb 100 key && ltb key 1000
