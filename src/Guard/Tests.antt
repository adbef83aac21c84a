-- ===== src/Guard/Tests.antt =====
-- Runs of the guard on concrete statements, and its theorems at them.
use felsen_mcp_server_postgr.Base.{runes, text_eq, mem_text, one_of}
use felsen_mcp_server_postgr.Config.Policy.{
  matches_name, schema_allowed, ddl_allowed, policy_allows, dml_allowed,
}
use felsen_mcp_server_postgr.Guard.Ddl.{
  is_referential_action, unsafe_cascade_from, has_unsafe_ddl_cascade, skip_if_not_exists,
  skip_if_exists, find_on, index_target, index_name, parse_create_index, parse_create_tables,
  is_foreign_key_referential_action, forbidden_word, check_alter_from, parse_alter_tables,
  parse_drop_tables, parse_truncate_tables, detect_ddl_tables_with_error,
}
use felsen_mcp_server_postgr.Guard.Relations.{
  list_ends, relation_end, relation_second, relation_first, relation_at_with_options,
  reject_list_from, reject_relation_list, is_relation_keyword, is_passed_over, relation_start,
  read_relation, detect_from, delete_target, add_delete_target, detect_table_refs,
}
use felsen_mcp_server_postgr.Guard.Script.{
  script_mode, reason_of, operation, detect_tables, detect_ddl_tables, apply_select_limit,
  add_script_statement, script_turn, script_loop, validate_statements, validate_script,
}
use felsen_mcp_server_postgr.Guard.Split.{split_step, add_statement, split_from, split_statements}
use felsen_mcp_server_postgr.Guard.Split.Laws.{statements_of}
use felsen_mcp_server_postgr.Guard.Statement.{
  denied_functions, denied_words, locking_sequences, check_token, check_tokens, check_clauses,
  validate_statement_tokens, qualified_call, validate_function_schemas,
}
use felsen_mcp_server_postgr.Guard.Strip.{strip_step, strip_end, strip_from, strip_sql_comments}
use felsen_mcp_server_postgr.Guard.Tables.{append_unique, split_table, normalize_table}
use felsen_mcp_server_postgr.Guard.Token.{
  text_at, is_keyword, keyword_at, identifier_value, contains_keyword, sequence_here, sequence_from,
  contains_sequence, operation_from_tokens,
}
use felsen_mcp_server_postgr.Guard.Tokenize.{
  span, string_body, identifier_body, is_identifier_start, is_identifier_part, lex_dollar,
  lex_string, lex_quoted, lex_span, lex, tokenize_from, tokenize,
}
use felsen_mcp_server_postgr.Guard.Tokenize.Bodies.{doubled}
use felsen_mcp_server_postgr.Guard.Validate.{
  is_ddl_operation, is_dml_operation, has_limit, check_statement, check_split, checked_tokens,
  first_refused_schema, validate_ddl, dml_operations, first_refused_operation, refuse_table,
  first_refusal, validate_tables, validate_select, validate_mode, validate,
}
use felsen_mcp_server_postgr.Strings.{
  trim_left, trim_right, trim_char, split, contains_char, cut_prefix, trim_space, to_lower,
  equal_fold, utf8_length,
}
use felsen_mcp_server_postgr.Strings.Ascii.{ascii_space, ascii_letter, ascii_digit, ascii_lower}
use felsen_mcp_server_postgr.Base.{
  ◌≤◌, true, false, List, [], ◌∷◌, ◌++◌, some, ◌≡◌, ◌≢◌, inl, refl, arith, String, Text, All,
  length,
}
use felsen_mcp_server_postgr.Strings.Ascii.{ascii}
use felsen_mcp_server_postgr.Config.Policy.{ConnectionConfig}
use felsen_mcp_server_postgr.Guard.Reason.{Result, ok, err, comments_not_allowed, out_of_fuel}
use felsen_mcp_server_postgr.Guard.Token.{Token, TokenKind}
use felsen_mcp_server_postgr.Guard.Tokenize.Reads.{Reads, tokenize-Reads}
use felsen_mcp_server_postgr.Guard.Tokenize.Fuel.{tokenize-fuel}
use felsen_mcp_server_postgr.Guard.Statement.Allowed.{IsStatement, validate_statement_tokens_iff}
use felsen_mcp_server_postgr.Guard.Tables.Unique.{IsDistinct}
use felsen_mcp_server_postgr.Guard.Tables.Names.{IsPlain, split_table-dotted_schema}
use felsen_mcp_server_postgr.Guard.Relations.Covered.{IsAccounted, detect_table_refs-IsAccounted}
use felsen_mcp_server_postgr.Guard.Validate.{read}
use felsen_mcp_server_postgr.Guard.Validate.Sound.{IsChecked, checked_tokens_iff}
use felsen_mcp_server_postgr.Guard.Validate.Modes.{IsReadable, IsWritable, IsDefinable}
use felsen_mcp_server_postgr.Guard.Validate.Modes.Read.{validate_read_iff}
use felsen_mcp_server_postgr.Guard.Validate.Modes.Write.{validate_dml_iff}
use felsen_mcp_server_postgr.Guard.Validate.Modes.Define.{validate_ddl_iff}
use felsen_mcp_server_postgr.Guard.Split.Laws.{IsOrdinary, split_statements-empty_literal}
use felsen_mcp_server_postgr.Guard.Script.{ScriptValidation}
use felsen_mcp_server_postgr.Guard.Script.Sound.{IsValidStatement, validate_script-valid}

open_all : Unit {0}
unfolding trim_left trim_right trim_char split contains_char cut_prefix trim_space to_lower
    equal_fold utf8_length runes text_eq mem_text one_of matches_name schema_allowed ddl_allowed
    policy_allows dml_allowed ascii_space ascii_letter ascii_digit ascii_lower strip_step strip_end
    strip_from strip_sql_comments is_ddl_operation is_dml_operation has_limit check_statement
    check_split checked_tokens first_refused_schema validate_ddl dml_operations
    first_refused_operation refuse_table first_refusal validate_tables validate_select validate_mode
    validate split_step add_statement split_from split_statements is_referential_action
    unsafe_cascade_from has_unsafe_ddl_cascade skip_if_not_exists skip_if_exists find_on
    index_target index_name parse_create_index parse_create_tables is_foreign_key_referential_action
    forbidden_word check_alter_from parse_alter_tables parse_drop_tables parse_truncate_tables
    detect_ddl_tables_with_error text_at is_keyword keyword_at identifier_value contains_keyword
    sequence_here sequence_from contains_sequence operation_from_tokens span string_body
    identifier_body is_identifier_start is_identifier_part lex_dollar lex_string lex_quoted lex_span
    lex tokenize_from tokenize script_mode reason_of operation detect_tables detect_ddl_tables
    apply_select_limit add_script_statement script_turn script_loop validate_statements
    validate_script append_unique split_table normalize_table denied_functions denied_words
    locking_sequences check_token check_tokens check_clauses validate_statement_tokens
    qualified_call validate_function_schemas list_ends relation_end relation_second relation_first
    relation_at_with_options reject_list_from reject_relation_list is_relation_keyword
    is_passed_over relation_start read_relation detect_from delete_target add_delete_target
    detect_table_refs statements_of doubled
open_all = tt

abbrev tok : TokenKind → String → Token
tok k s = record { text = runes s; quoted = false; kind = k }

abbrev word : String → Token
word s = tok TokenKind.identifier s

abbrev sign : String → Token
sign s = tok TokenKind.symbol s

-- One schema, one table that DML may change, and DDL.
abbrev cfg : ConnectionConfig
cfg = record {
  schemas = runes "public" ∷ [];
  max_rows = 100;
  max_affected_rows = 100;
  max_script_statements = 10;
  max_script_affected_rows = 100;
  max_script_bytes = 1000;
  dml_policies =
      record {
        schema = runes "public";
        table = runes "t";
        operations = runes "insert" ∷ runes "update" ∷ [];
      }
      ∷ [];
  ddl_enabled = some true;
}

tokenize_test :
    tokenize (runes "select a.\"B\"\"c\", 'it''s' from t1;")
    ≡ ok (
        word "select"
        ∷ word "a"
        ∷ sign "."
        ∷ record { text = runes "B\"c"; quoted = true; kind = TokenKind.identifier }
        ∷ sign ","
        ∷ tok TokenKind.string "'it''s'"
        ∷ word "from"
        ∷ word "t1"
        ∷ sign ";"
        ∷ [])
unfolding open_all
tokenize_test = refl

tokenize_comment : tokenize (runes "select 1 -- x") ≡ err comments_not_allowed
unfolding open_all
tokenize_comment = refl

abbrev select_text : Text
select_text = runes "select a from t"

abbrev select_tokens : List Token
select_tokens = word "select" ∷ word "a" ∷ word "from" ∷ word "t" ∷ []

validate_read_example :
    (tokens : List Token) × (tables : List Text) × IsReadable split_statements select_text cfg
      tokens tables
unfolding open_all
validate_read_example = (validate_read_iff split_statements select_text cfg read (inl refl)).0 refl

abbrev upsert_text : Text
upsert_text = runes "insert into t values (1) on conflict do update set a = 2"

validate_dml_example :
    (tokens : List Token) × (tables : List Text) × IsWritable split_statements upsert_text cfg
      tokens tables
unfolding open_all
validate_dml_example = (validate_dml_iff split_statements upsert_text cfg).0 refl

abbrev create_text : Text
create_text = runes "create table u (a int references t on delete cascade)"

validate_ddl_example :
    (tokens : List Token) × (tables : List Text) × IsDefinable split_statements create_text cfg
      tokens tables
unfolding open_all
validate_ddl_example = (validate_ddl_iff split_statements create_text cfg).0 refl

checked_tokens_example : IsChecked split_statements select_text cfg select_tokens
unfolding open_all
checked_tokens_example = (checked_tokens_iff split_statements select_text cfg select_tokens).0 refl

validate_statement_tokens_example : IsStatement select_tokens
unfolding open_all
validate_statement_tokens_example = (validate_statement_tokens_iff select_tokens).0 refl

detect_table_refs-IsAccounted_example :
    IsAccounted select_tokens (runes "select") 2 (runes "public.t" ∷ [])
unfolding open_all
detect_table_refs-IsAccounted_example =
    detect_table_refs-IsAccounted select_tokens (runes "select") (runes "public.t" ∷ []) 2 3 refl
      refl

tokenize-Reads_example : Reads select_text select_tokens
unfolding open_all
tokenize-Reads_example = tokenize-Reads select_text refl

tokenize-fuel_example : tokenize select_text ≢ err out_of_fuel
tokenize-fuel_example = tokenize-fuel select_text

abbrev cascade_tokens : List Token
cascade_tokens =
    word "create"
    ∷ word "table"
    ∷ word "u"
    ∷ sign "("
    ∷ word "a"
    ∷ word "int"
    ∷ word "references"
    ∷ word "t"
    ∷ word "on"
    ∷ word "delete"
    ∷ word "cascade"
    ∷ sign ")"
    ∷ []

abbrev alter_tokens : List Token
alter_tokens =
    word "alter" ∷ word "table" ∷ word "t" ∷ word "add" ∷ word "column" ∷ word "a" ∷ word "int" ∷ []

abbrev call_tokens : List Token
call_tokens = word "select" ∷ word "public" ∷ sign "." ∷ word "f" ∷ sign "(" ∷ sign ")" ∷ []

b_full : runes "b" ≢ []
unfolding open_all
b_full e = cc

a_IsPlain : IsPlain (runes "a")
unfolding open_all
a_IsPlain = record {
  full = λ e. cc;
  no_space = (refl, tt);
  no_dot = (refl, tt);
  no_quote = (refl, tt);
}

public_IsPlain : IsPlain (runes "public")
unfolding open_all
public_IsPlain = record {
  full = λ e. cc;
  no_space = (refl, (refl, (refl, (refl, (refl, (refl, tt))))));
  no_dot = (refl, (refl, (refl, (refl, (refl, (refl, tt))))));
  no_quote = (refl, (refl, (refl, (refl, (refl, (refl, tt))))));
}

split_table-dotted_example :
    split_table (normalize_table ((runes "a" ++ b'.' ∷ runes "a") ++ b'.' ∷ runes "a"))
    ≡ (runes "a", runes "a")
split_table-dotted_example =
    split_table-dotted_schema (runes "a") (runes "a") (runes "a") a_IsPlain a_IsPlain a_IsPlain

abbrev script_text : Text
script_text = runes "update t set a = 1; drop table t"

abbrev script_result : Result ScriptValidation → ScriptValidation
script_result (ok v) = v
script_result (err e) = record { statements = []; tables_detected = [] }

abbrev script_validation : ScriptValidation
script_validation = script_result (validate_script split_statements cfg 10 script_text)

validate_script-valid_example :
    (script_validation.statements ≢ [])
    × (length script_validation.statements ≤ 10)
    × All (IsValidStatement split_statements cfg 10) script_validation.statements
    × IsDistinct script_validation.tables_detected
unfolding open_all
validate_script-valid_example =
    validate_script-valid split_statements cfg 10 script_text script_validation refl

ordinary : All IsOrdinary (runes "a;b")
unfolding open_all
ordinary = ground arith

IsOrdinary-part : All (λ c. IsOrdinary c × (c ≢ b';')) (runes "a")
unfolding open_all
IsOrdinary-part = ground arith

quoteless : All (λ c. c ≢ 39) (runes ";b")
unfolding open_all
quoteless = ground arith

split_statements-empty_literal_example :
    split_statements (runes "a" ++ 39 ∷ 39 ∷ runes ";b")
    ≡ ok (add_statement (runes "a" ++ 39 ∷ 39 ∷ runes ";b") [])
split_statements-empty_literal_example =
    split_statements-empty_literal (runes "a") (runes ";b") IsOrdinary-part quoteless
