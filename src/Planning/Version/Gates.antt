-- ===== src/Planning/Version/Gates.antt =====
-- src/version/capabilities.ts: the gates, against the releases that src/version/types.ts documents.
use dbgate_mysql_dumper.Base.{
  ℕ, [], ◌∷◌, List, Option, none, some, Bool, false, ◌||◌, ◌&&◌, leb, ltb, ◌==◌,
}
use dbgate_mysql_dumper.Planning.Version.{
  MysqlFlavor, mysql, mariadb, percona, unknown, SourceCapabilities,
}

-- The capabilities as a list.
abbrev pub flags : SourceCapabilities → List Bool
flags c =
    c.supports_check_constraints ∷ c.supports_check_constraint_enforcement_metadata
    ∷ c.supports_generated_columns ∷ c.supports_json_type ∷ c.supports_invisible_columns
    ∷ c.supports_descending_indexes ∷ c.supports_index_expressions ∷ c.supports_invisible_indexes
    ∷ c.supports_utf8mb4_0900_collations ∷ c.supports_events ∷ c.supports_expression_defaults
    ∷ c.supports_spatial_reference_systems ∷ c.reports_default_generated_extra ∷ []

abbrev pub Release : Type 0
Release = ℕ × ℕ × ℕ

-- The order of releases: by the major number, then by the minor one, then by the patch.
abbrev pub is_from : Release → Release → Bool
is_from (a, b, c) (major, minor, patch) =
    ltb a major || a == major && (ltb b minor || b == minor && leb c patch)

-- The first release with a capability, of MySQL and its kin and of MariaDB, if there is one.
pub record Since : Type 0 where
  pub of_mysql : Option Release
  pub of_mariadb : Option Release

abbrev since : Release → Option Release → Since
since release of_mariadb = record { of_mysql = some release; of_mariadb = of_mariadb }

-- In the order of the flags.
abbrev pub documented : List Since
documented =
    since (8, 0, 16) (some (10, 2, 0))
    ∷ since (8, 0, 16) none
    ∷ since (5, 7, 6) (some (10, 2, 0))
    ∷ since (5, 7, 8) none
    ∷ since (8, 0, 23) (some (10, 3, 0))
    ∷ since (8, 0, 0) (some (10, 8, 0))
    ∷ since (8, 0, 13) none
    ∷ since (8, 0, 0) none
    ∷ since (8, 0, 0) none
    ∷ since (0, 0, 0) (some (0, 0, 0))
    ∷ since (8, 0, 13) (some (10, 2, 0))
    ∷ since (8, 0, 0) none
    ∷ since (8, 0, 13) none
    ∷ []

abbrev pub reached_by : Option Release → Release → Bool
reached_by none server = false
reached_by (some release) server = is_from release server

abbrev pub offers : MysqlFlavor → Release → Since → Bool
offers mysql server s = reached_by s.of_mysql server
offers mariadb server s = reached_by s.of_mariadb server
offers percona server s = reached_by s.of_mysql server
offers unknown server s = reached_by s.of_mysql server
