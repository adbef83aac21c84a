-- ===== src/Tests.antt =====
-- Runs of authentication, masking and the store, and their theorems at them.
use felsen_mcp_server_postgr.Authn.{
  is_hex_digit, clone_principal, principal_named, first_principal, key_with_hash, has_scope,
  can_use_connection, bearer_token, key_hash, new_key, new_keys, new_manager, authenticate_header,
  some_items, composite_authenticate, new_composite, http_middleware,
}
use felsen_mcp_server_postgr.Base.{runes, text_eq, mem_text, one_of}
use felsen_mcp_server_postgr.Config.Policy.{
  matches_name, schema_allowed, ddl_allowed, policy_allows, dml_allowed,
}
use felsen_mcp_server_postgr.Guard.Ddl.{
  is_referential_action, unsafe_cascade_from, has_unsafe_ddl_cascade, skip_if_not_exists,
  skip_if_exists, find_on, index_target, index_name, parse_create_index, parse_create_tables,
  is_foreign_key_referential_action, forbidden_word, check_alter_from, parse_alter_tables,
  parse_drop_tables, parse_truncate_tables, detect_ddl_tables_with_error,
}
use felsen_mcp_server_postgr.Guard.Relations.{
  list_ends, relation_end, relation_second, relation_first, relation_at_with_options,
  reject_list_from, reject_relation_list, is_relation_keyword, is_passed_over, relation_start,
  read_relation, detect_from, delete_target, add_delete_target, detect_table_refs,
}
use felsen_mcp_server_postgr.Guard.Script.{
  script_mode, reason_of, operation, detect_tables, detect_ddl_tables, apply_select_limit,
  add_script_statement, script_turn, script_loop, validate_statements, validate_script,
}
use felsen_mcp_server_postgr.Guard.Split.{split_step, add_statement, split_from, split_statements}
use felsen_mcp_server_postgr.Guard.Split.Laws.{statements_of}
use felsen_mcp_server_postgr.Guard.Statement.{
  denied_functions, denied_words, locking_sequences, check_token, check_tokens, check_clauses,
  validate_statement_tokens, qualified_call, validate_function_schemas,
}
use felsen_mcp_server_postgr.Guard.Strip.{strip_step, strip_end, strip_from, strip_sql_comments}
use felsen_mcp_server_postgr.Guard.Tables.{append_unique, split_table, normalize_table}
use felsen_mcp_server_postgr.Guard.Token.{
  text_at, is_keyword, keyword_at, identifier_value, contains_keyword, sequence_here, sequence_from,
  contains_sequence, operation_from_tokens,
}
use felsen_mcp_server_postgr.Guard.Tokenize.{
  span, string_body, identifier_body, is_identifier_start, is_identifier_part, lex_dollar,
  lex_string, lex_quoted, lex_span, lex, tokenize_from, tokenize,
}
use felsen_mcp_server_postgr.Guard.Tokenize.Bodies.{doubled}
use felsen_mcp_server_postgr.Guard.Validate.{
  Mode, is_ddl_operation, is_dml_operation, has_limit, check_statement, check_split, checked_tokens,
  first_refused_schema, validate_ddl, dml_operations, first_refused_operation, refuse_table,
  first_refusal, validate_tables, validate_select, validate_mode, validate,
}
use felsen_mcp_server_postgr.Masking.{
  default_sensitive, compile_all, new_masker, should_mask, mask_row,
}
use felsen_mcp_server_postgr.Store.{
  find_database, join_commas, scoped_path, set_scoped_search_path, begin_scoped,
}
use felsen_mcp_server_postgr.Store.Change.{
  clear_cache, commit_with, exec_dml, exec_ddl, execute_dml, run_ddl, execute_ddl,
}
use felsen_mcp_server_postgr.Store.Describe.{
  scan_rows, scan_all, find_description, cache_key, store_description, index_column_names,
  parse_index_columns, introspect, describe_table,
}
use felsen_mcp_server_postgr.Store.Effects.{pending, effects, may_write, is_open}
use felsen_mcp_server_postgr.Store.Query.{
  json_safe_values, collect_from, collect_rows, finish_query, run_query, query_read_only,
  sample_rows, execute_sql, explain_sql,
}
use felsen_mcp_server_postgr.Store.Run.{
  count_statement, exec_statement, run_statement, run_statements, run_script, script_database,
  validated_script, execute_script,
}
use felsen_mcp_server_postgr.Strings.{
  trim_left, trim_right, trim_char, split, contains_char, cut_prefix, trim_space, to_lower,
  equal_fold, utf8_length,
}
use felsen_mcp_server_postgr.Strings.Ascii.{ascii_space, ascii_letter, ascii_digit, ascii_lower}
use felsen_mcp_server_postgr.Base.{
  ℕ, ◌+◌, true, false, List, [], ◌∷◌, none, some, ◌≡◌, ◌≢◌, refl, Text, length, get_elem?,
}
use felsen_mcp_server_postgr.Strings.Ascii.{ascii}
use felsen_mcp_server_postgr.Config.Policy.{ConnectionConfig}
use felsen_mcp_server_postgr.Authn.{Principal, Manager, Authenticator}
use felsen_mcp_server_postgr.Authn.Keys.{AreKeysOf, new_manager-AreKeysOf}
use felsen_mcp_server_postgr.Authn.{ApiKeyConfig}
use felsen_mcp_server_postgr.Authn.Header.{IsBearer, IsFirstKey, authenticate_header_iff}
use felsen_mcp_server_postgr.Masking.{Masker, Value, masked}
use felsen_mcp_server_postgr.Masking.Rows.{shown, mask_row-lem}
use felsen_mcp_server_postgr.Store.{
  value, failure, done, Event, begun, executed, committed, Rows, Driver, Database, TableDescription,
}
use felsen_mcp_server_postgr.Store.Effects.{Atomic}
use felsen_mcp_server_postgr.Store.Change.Atomic.{
  DropsCache, IsWithin, execute_dml-Atomic, execute_dml-IsWithin, execute_ddl-Atomic,
}
use felsen_mcp_server_postgr.Store.Query.Limits.{IsReadOnly, AsksOnlyIf, execute_sql-IsReadOnly}
use felsen_mcp_server_postgr.Store.Run.Atomic.{IsAllOrNothing, execute_script-IsAllOrNothing}
use felsen_mcp_server_postgr.Store.Describe.{Catalog}
use felsen_mcp_server_postgr.App.{App, principal, resolve_connection, authorize}
use felsen_mcp_server_postgr.App.Tools.{
  Pool, dml_call, script_call, execute_sql_tool, sample_rows_tool, explain_sql_tool,
  execute_dml_tool, execute_ddl_tool, execute_script_tool, refresh_schema_cache_tool, pools_after,
}
use felsen_mcp_server_postgr.App.Permits.{IsPermitted, IsGuarded, pools_after-IsGuarded}
use felsen_mcp_server_postgr.App.Writes.{effects_at, IsWritten, IsAccepted, pools_after-effects}
use felsen_mcp_server_postgr.Base.{Entries, find, delete, put, if◌then◌else◌, ◌⊎◌}

open_all : Unit {0}
unfolding find delete put principal resolve_connection authorize execute_sql_tool sample_rows_tool
    explain_sql_tool execute_dml_tool execute_ddl_tool execute_script_tool refresh_schema_cache_tool
    pools_after is_hex_digit clone_principal principal_named first_principal key_with_hash has_scope
    can_use_connection bearer_token key_hash new_key new_keys new_manager authenticate_header
    some_items composite_authenticate new_composite http_middleware default_sensitive compile_all
    new_masker should_mask mask_row trim_left trim_right trim_char split contains_char cut_prefix
    trim_space to_lower equal_fold utf8_length find_database join_commas scoped_path
    set_scoped_search_path begin_scoped pending effects may_write is_open clear_cache commit_with
    exec_dml exec_ddl execute_dml run_ddl execute_ddl json_safe_values collect_from collect_rows
    finish_query run_query query_read_only sample_rows execute_sql explain_sql count_statement
    exec_statement run_statement run_statements run_script script_database validated_script
    execute_script scan_rows scan_all find_description cache_key store_description
    index_column_names parse_index_columns introspect describe_table runes text_eq mem_text one_of
    matches_name schema_allowed ddl_allowed policy_allows dml_allowed ascii_space ascii_letter
    ascii_digit ascii_lower strip_step strip_end strip_from strip_sql_comments is_ddl_operation
    is_dml_operation has_limit check_statement check_split checked_tokens first_refused_schema
    validate_ddl dml_operations first_refused_operation refuse_table first_refusal validate_tables
    validate_select validate_mode validate split_step add_statement split_from split_statements
    is_referential_action unsafe_cascade_from has_unsafe_ddl_cascade skip_if_not_exists
    skip_if_exists find_on index_target index_name parse_create_index parse_create_tables
    is_foreign_key_referential_action forbidden_word check_alter_from parse_alter_tables
    parse_drop_tables parse_truncate_tables detect_ddl_tables_with_error text_at is_keyword
    keyword_at identifier_value contains_keyword sequence_here sequence_from contains_sequence
    operation_from_tokens span string_body identifier_body is_identifier_start is_identifier_part
    lex_dollar lex_string lex_quoted lex_span lex tokenize_from tokenize script_mode reason_of
    operation detect_tables detect_ddl_tables apply_select_limit add_script_statement script_turn
    script_loop validate_statements validate_script append_unique split_table normalize_table
    denied_functions denied_words locking_sequences check_token check_tokens check_clauses
    validate_statement_tokens qualified_call validate_function_schemas list_ends relation_end
    relation_second relation_first relation_at_with_options reject_list_from reject_relation_list
    is_relation_keyword is_passed_over relation_start read_relation detect_from delete_target
    add_delete_target detect_table_refs statements_of doubled
open_all = tt

abbrev cfg : ConnectionConfig
cfg = record {
  schemas = runes "public" ∷ [];
  max_rows = 1;
  max_affected_rows = 100;
  max_script_statements = 10;
  max_script_affected_rows = 100;
  max_script_bytes = 1000;
  dml_policies =
      record { schema = runes "public"; table = runes "t"; operations = runes "update" ∷ [] } ∷ [];
  ddl_enabled = some true;
}

abbrev masker : Masker
masker = record { enabled = true; allow = []; rules = (λ c. text_eq c (runes "b")) ∷ [] }

abbrev db : Database
db = record { cfg = cfg; masker = masker; cache = [] }

abbrev two_rows : Rows
two_rows = record {
  fields = runes "a" ∷ runes "b" ∷ [];
  values =
      value (Value.number 1 ∷ Value.number 2 ∷ []) ∷ value (Value.number 3 ∷ Value.null ∷ []) ∷ [];
  error = none;
}

-- A driver that does everything it is asked.
abbrev willing : Driver
willing = record {
  begin = λ h r. none;
  set_path = λ h p. none;
  exec = λ h s. value 3;
  query = λ h s a. value two_rows;
  commit = λ h. none;
}

abbrev sanitize : List Text → Text
sanitize names = join_commas names

abbrev decode : List ℕ → Text
decode b = b

abbrev format : ℕ → Text
format t = []

abbrev update_text : Text
update_text = runes "update t set a = 1"

execute_dml_test : execute_dml willing sanitize db split_statements update_text [] ≡ (
  done (record { rows_affected = 3 }),
  committed ∷ executed update_text ∷ Event.path_set (runes "public") ∷ begun false ∷ [],
)
unfolding open_all
execute_dml_test = refl

execute_dml-Atomic_example :
    Atomic [] (update_text ∷ []) (execute_dml willing sanitize db split_statements update_text [])
execute_dml-Atomic_example = execute_dml-Atomic willing sanitize db [] update_text split_statements

execute_dml-IsWithin_example :
    IsWithin willing sanitize db [] update_text split_statements
      (execute_dml willing sanitize db split_statements update_text [])
execute_dml-IsWithin_example =
    execute_dml-IsWithin willing sanitize db [] update_text split_statements

abbrev drop_text : Text
drop_text = runes "drop table t"

execute_ddl-Atomic_example :
    Atomic [] (drop_text ∷ []) (
      (execute_ddl willing sanitize db split_statements drop_text []).0,
      (execute_ddl willing sanitize db split_statements drop_text []).2,
    )
    × DropsCache willing sanitize db [] drop_text split_statements
        (execute_ddl willing sanitize db split_statements drop_text [])
execute_ddl-Atomic_example = execute_ddl-Atomic willing sanitize db [] drop_text split_statements

abbrev script_text : Text
script_text = runes "update t set a = 1; drop table t"

execute_script-IsAllOrNothing_example :
    IsAllOrNothing willing sanitize db split_statements script_text [] (
      (execute_script willing sanitize db split_statements script_text []).0,
      (execute_script willing sanitize db split_statements script_text []).2,
    )
execute_script-IsAllOrNothing_example =
    execute_script-IsAllOrNothing willing sanitize db split_statements script_text []

abbrev select_text : Text
select_text = runes "select a from t"

abbrev digit : ℕ → Text
digit n = (48 + n) ∷ []

execute_sql-IsReadOnly_example :
    IsReadOnly decode format willing sanitize db []
      (apply_select_limit digit select_text 1)
      []
      (execute_sql decode format willing sanitize db split_statements digit select_text [])
    × AsksOnlyIf decode format willing sanitize db []
        (validate split_statements select_text cfg Mode.read).valid
        (execute_sql decode format willing sanitize db split_statements digit select_text [])
execute_sql-IsReadOnly_example =
    execute_sql-IsReadOnly decode format willing sanitize db [] split_statements digit select_text

abbrev empty_catalog : Catalog
empty_catalog = record {
  primary_key = λ s t. value (record { rows = []; error = none });
  columns = λ s t. value (record { rows = []; error = none });
  foreign_keys = λ s t. value (record { rows = []; error = none });
  indexes = λ s t. value (record { rows = []; error = none });
  column_list = λ d. none;
}

abbrev broken_catalog : Catalog
broken_catalog = record {
  primary_key = λ s t. failure [];
  columns = λ s t. failure [];
  foreign_keys = λ s t. failure [];
  indexes = λ s t. failure [];
  column_list = λ d. none;
}

abbrev described : TableDescription
described = record {
  schema = runes "public";
  table = runes "t";
  columns = [];
  primary_key = [];
  foreign_keys = [];
  indexes = [];
}

abbrev alice : Principal
alice = record { name = runes "alice"; scopes = runes "read" ∷ []; connections = runes "*" ∷ [] }

abbrev manager : Manager
manager = record { keys = record { hash = runes "x"; principal = alice } ∷ [] }

abbrev same_text : Text → Text
same_text s = s

authenticate_header_example :
    (token : Text) × IsBearer (runes "bearer x") token
    × IsFirstKey manager.keys (same_text token) alice
unfolding open_all
authenticate_header_example =
    (authenticate_header_iff same_text manager (runes "bearer x") alice).0 refl

abbrev nobody : Authenticator
nobody header = none

abbrev anybody : Authenticator
anybody header = some alice

abbrev columns : List Text
columns = runes "a" ∷ runes "b" ∷ []

abbrev row : List Value
row = Value.number 1 ∷ Value.number 2 ∷ []

mask_row_test : mask_row masker columns row ≡ Value.number 1 ∷ masked ∷ []
unfolding open_all
mask_row_test = refl

mask_row-lem_example :
    (length (mask_row masker columns row) ≡ length row)
    × ((i : ℕ) (col : Text) (v : Value)
        → get_elem? columns i ≡ some col
        → get_elem? row i ≡ some v
        → get_elem? (mask_row masker columns row) i ≡ some (shown masker col v))
    × ((i : ℕ)
        → get_elem? columns i ≡ none
        → get_elem? (mask_row masker columns row) i ≡ get_elem? row i)
mask_row-lem_example = mask_row-lem masker columns row

abbrev key_config : ApiKeyConfig
key_config = record {
  name = runes "bob";
  token = runes "x";
  token_env = [];
  token_sha256 = [];
  scopes = runes "Read" ∷ [];
  connections = runes "*" ∷ [];
}

abbrev bob : Manager
bob = record {
  keys =
      record {
        hash = runes "x";
        principal = record {
          name = runes "bob";
          scopes = runes "read" ∷ [];
          connections = runes "*" ∷ [];
        };
      }
      ∷ [];
}

new_manager-AreKeysOf_example : (bob.keys ≢ []) × AreKeysOf same_text (key_config ∷ []) bob.keys
unfolding open_all
new_manager-AreKeysOf_example = new_manager-AreKeysOf same_text (key_config ∷ []) bob refl

-- It may write on the connection b.
abbrev writer : Principal
writer = record { name = runes "w"; scopes = runes "write" ∷ []; connections = runes "b" ∷ [] }

abbrev gate : Authenticator
gate token = if text_eq token (runes "k") then some writer else none

abbrev app : App
app = record {
  auth = some gate;
  store = record {
    connection_names = runes "a" ∷ runes "b" ∷ [];
    connection_config = λ name. some cfg;
    list_schemas = λ connection. value [];
    list_tables = λ connection schema. value [];
    describe_table = λ connection schema table. failure [];
  };
  max_search_results = 5;
}

abbrev pools : Entries Pool
pools =
    (runes "a", record { database = db; history = [] })
    ∷ (runes "b", record { database = db; history = [] })
    ∷ []

abbrev after : Text → Text → Entries Pool
after connection sql =
    pools_after decode format split_statements sanitize digit (λ c. willing) app (some (runes "k"))
      (dml_call connection sql) pools

effective_write_test : effects_at (after (runes "b") update_text) (runes "b") ≡ update_text ∷ []
unfolding open_all
effective_write_test = refl

refused_write_test : after (runes "a") update_text ≡ pools
unfolding open_all
refused_write_test = refl

refused_script_test :
    pools_after decode format split_statements sanitize digit
      (λ c. willing)
      app
      (some (runes "k"))
      (script_call (runes "b") script_text)
      pools
    ≡ pools
unfolding open_all
refused_script_test = refl

pools_after-IsGuarded_example :
    IsGuarded app
      (some (runes "k"))
      (runes "write" ∷ [])
      (runes "b")
      pools
      (after (runes "b") update_text)
pools_after-IsGuarded_example =
    pools_after-IsGuarded decode format split_statements sanitize digit (λ c. willing) app
      (some (runes "k")) (dml_call (runes "b") update_text) pools (runes "b")

pools_after-effects_example :
    (effects_at (after (runes "b") update_text) (runes "b") ≡ effects_at pools (runes "b"))
    ⊎ (IsPermitted app (some (runes "k")) (runes "write" ∷ []) (runes "b")
        × IsWritten
            (IsAccepted split_statements (dml_call (runes "b") update_text))
            pools
            (after (runes "b") update_text)
            (runes "b"))
pools_after-effects_example =
    pools_after-effects decode format split_statements sanitize digit (λ c. willing) app
      (some (runes "k")) (dml_call (runes "b") update_text) pools (runes "b")
