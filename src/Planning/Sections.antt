-- ===== src/Planning/Sections.antt =====
-- src/archive/sectionRules.ts and the order of src/archive/planner.ts.
pub mod Order
use dbgate_mysql_dumper.Base.{ℕ, [], ◌∷◌, Bytes, Bool, true, false, ltb, if◌then◌else◌}

pub data ArchiveObjectType : Type 0 where
  database table table_data trigger view_stub event function procedure view : ArchiveObjectType

pub data DumpSection : Type 0 where
  database_section main_section events_section routines_section views_section : DumpSection

unfoldable pub assign_dump_section : ArchiveObjectType → DumpSection
assign_dump_section database = database_section
assign_dump_section table = main_section
assign_dump_section table_data = main_section
assign_dump_section trigger = main_section
assign_dump_section view_stub = main_section
assign_dump_section event = events_section
assign_dump_section function = routines_section
assign_dump_section procedure = routines_section
assign_dump_section view = views_section

unfoldable pub dump_section_priority : DumpSection → ℕ
dump_section_priority database_section = 0
dump_section_priority main_section = 1
dump_section_priority events_section = 2
dump_section_priority routines_section = 3
dump_section_priority views_section = 4

unfoldable pub main_group_priority : ArchiveObjectType → ℕ
main_group_priority table_data = 1
main_group_priority trigger = 2
main_group_priority _ = 0

unfoldable pub routine_kind_priority : ArchiveObjectType → ℕ
routine_kind_priority procedure = 1
routine_kind_priority _ = 0

-- The fields of `MutableEntry` that the order reads.
pub record Entry : Type 0 where
  pub object_type : ArchiveObjectType
  pub group_key : Bytes
  pub secondary_key : Bytes
  pub name : Bytes

-- The sign of the number that a comparison returns.
pub data Sign : Type 0 where
  negative zero_sign positive : Sign

-- the sign of `a - b`
unfoldable pub delta : ℕ → ℕ → Sign
delta a b = if ltb a b then negative else if ltb b a then positive else zero_sign

-- `byCodepoint`: `<` on strings compares code units.
unfoldable pub by_codepoint : Bytes → Bytes → Sign
by_codepoint [] [] = zero_sign
by_codepoint [] (y ∷ ys) = negative
by_codepoint (x ∷ xs) [] = positive
by_codepoint (x ∷ xs) (y ∷ ys) =
    if ltb x y then negative else if ltb y x then positive else by_codepoint xs ys

-- `if (first !== 0) return first;`, and what follows
abbrev pub or_else : Sign → Sign → Sign
or_else zero_sign next = next
or_else negative next = negative
or_else positive next = positive

unfoldable pub is_routines : DumpSection → Bool
is_routines routines_section = true
is_routines _ = false

unfoldable pub compare_in_section : Entry → Entry → Sign
compare_in_section a b = or_else (by_codepoint a.group_key b.group_key) (
    or_else (delta (main_group_priority a.object_type) (main_group_priority b.object_type))
      (or_else (by_codepoint a.secondary_key b.secondary_key) (by_codepoint a.name b.name)))

unfoldable pub compare_entries : Entry → Entry → Sign
compare_entries a b =
    or_else
      (delta (dump_section_priority (assign_dump_section a.object_type))
        (dump_section_priority (assign_dump_section b.object_type)))
      (if is_routines (assign_dump_section a.object_type)
        then or_else
            (delta (routine_kind_priority a.object_type) (routine_kind_priority b.object_type))
            (compare_in_section a b)
        else compare_in_section a b)
