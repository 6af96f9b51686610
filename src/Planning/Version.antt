-- ===== src/Planning/Version.antt =====
-- src/version/types.ts and src/version/capabilities.ts: the version of a server, and what it can do.
pub mod Gates
use dbgate_mysql_dumper.Base.{
  ◌>>=◌, ℕ, ◌+◌, ◌-◌, ◌*◌, [], ◌∷◌, ◌++◌, Bytes, Option, none, some, Bool, true, false, ◌&&◌, ◌||◌,
  not, leb, ◌==◌, if◌then◌else◌, codes,
}
use dbgate_mysql_dumper.Text.Letters.{contains_ci, is_digit}
use dbgate_mysql_dumper.Text.Blank.{trim}

pub data MysqlFlavor : Type 0 where
  mysql mariadb percona unknown : MysqlFlavor

pub record VersionNumbers : Type 0 where
  pub major_version : ℕ
  pub minor_version : ℕ
  pub patch_version : ℕ
  pub version_number : ℕ

-- `\d+` at the head, its value and the text behind it. `value` is what was read before, if anything.
unfoldable pub read_number : Option ℕ → Bytes → Option (ℕ × Bytes)
read_number none [] = none
read_number (some value) [] = some (value, [])
read_number none (c ∷ cs) = if is_digit c then read_number (some (c - b'0')) cs else none
read_number (some value) (c ∷ cs) =
    if is_digit c then read_number (some (10 * value + (c - b'0'))) cs else some (value, c ∷ cs)

-- `\.(\d+)`
unfoldable pub read_component : Bytes → Option (ℕ × Bytes)
read_component [] = none
read_component (c ∷ cs) = if c == b'.' then read_number none cs else none

abbrev pub numbers : ℕ → ℕ → ℕ → VersionNumbers
numbers major minor patch = record {
  major_version = major;
  minor_version = minor;
  patch_version = patch;
  version_number = major * 10000 + minor * 100 + patch;
}

-- `(?:\.(\d+))?`, a patch that is left out being 0
unfoldable pub patch_of : Bytes → ℕ
patch_of rest = elim (read_component rest) [ none ↦ 0 | some p ↦ let (patch, _) = p in patch ]

-- `parseMysqlVersion`; `none` is the error.
unfoldable pub parse_mysql_version : Bytes → Option VersionNumbers
parse_mysql_version version_string = do
  (major, behind_major) ← read_number none (trim version_string)
  (minor, behind_minor) ← read_component behind_major
  some (numbers major minor (patch_of behind_minor))

unfoldable pub starts_with_digit : Bytes → Bool
starts_with_digit [] = false
starts_with_digit (c ∷ _) = is_digit c

unfoldable pub detect_mysql_flavor : Bytes → Option Bytes → MysqlFlavor
detect_mysql_flavor version_string version_comment =
    let haystack =
      version_string ++ codes " " ++ elim version_comment [ none ↦ [] | some comment ↦ comment ] in
    if contains_ci (codes "mariadb") haystack
    then mariadb
    else if contains_ci (codes "percona") haystack
    then percona
    else if contains_ci (codes "mysql") haystack || starts_with_digit (trim version_string)
    then mysql
    else unknown

pub record SourceCapabilities : Type 0 where
  pub supports_check_constraints : Bool
  pub supports_check_constraint_enforcement_metadata : Bool
  pub supports_generated_columns : Bool
  pub supports_json_type : Bool
  pub supports_invisible_columns : Bool
  pub supports_descending_indexes : Bool
  pub supports_index_expressions : Bool
  pub supports_invisible_indexes : Bool
  pub supports_utf8mb4_0900_collations : Bool
  pub supports_events : Bool
  pub supports_expression_defaults : Bool
  pub supports_spatial_reference_systems : Bool
  pub reports_default_generated_extra : Bool

unfoldable pub is_mariadb : MysqlFlavor → Bool
is_mariadb mariadb = true
is_mariadb _ = false

unfoldable pub mysql_at_least : MysqlFlavor → ℕ → ℕ → Bool
mysql_at_least flavor version_number target = not (is_mariadb flavor) && leb target version_number

unfoldable pub maria_at_least : MysqlFlavor → ℕ → ℕ → Bool
maria_at_least flavor version_number target = is_mariadb flavor && leb target version_number

unfoldable pub detect_source_capabilities : MysqlFlavor → ℕ → SourceCapabilities
detect_source_capabilities flavor n = record {
  supports_check_constraints = mysql_at_least flavor n 80016 || maria_at_least flavor n 100200;
  supports_check_constraint_enforcement_metadata = mysql_at_least flavor n 80016;
  supports_generated_columns = mysql_at_least flavor n 50706 || maria_at_least flavor n 100200;
  supports_json_type = mysql_at_least flavor n 50708;
  supports_invisible_columns = mysql_at_least flavor n 80023 || maria_at_least flavor n 100300;
  supports_descending_indexes = mysql_at_least flavor n 80000 || maria_at_least flavor n 100800;
  supports_index_expressions = mysql_at_least flavor n 80013;
  supports_invisible_indexes = mysql_at_least flavor n 80000;
  supports_utf8mb4_0900_collations = mysql_at_least flavor n 80000;
  supports_events = true;
  supports_expression_defaults = mysql_at_least flavor n 80013 || maria_at_least flavor n 100200;
  supports_spatial_reference_systems = mysql_at_least flavor n 80000;
  reports_default_generated_extra = mysql_at_least flavor n 80013;
}
