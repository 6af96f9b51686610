-- ===== src/Restore/Parser/Banner.antt =====
-- `noteSectionComment`: the banners of mysqldump, such as "Dumping data for table `t`".
use dbgate_mysql_dumper.Base.{
  suc, Bool, false, ◌&&◌, [], ◌∷◌, List, Option, some, if◌then◌else◌, Bytes, codes, length, drop,
  starts_with, any,
}
use dbgate_mysql_dumper.Text.Blank.{trim_text, skip_blanks, is_one_line, blank_length}
use dbgate_mysql_dumper.Text.Utf8.{decoded}

abbrev banners : List Bytes
banners =
    codes "Table structure for table"
    ∷ codes "Dumping data for table"
    ∷ codes "Temporary view structure for view"
    ∷ codes "Final view structure for view"
    ∷ codes "Dumping routines for database"
    ∷ codes "Dumping events for database"
    ∷ []

-- `\s+(.+)$`, on text that does not end in a blank
names_object : Bytes → Bool
unfolding skip_blanks is_one_line blank_length
names_object text = elim (blank_length text) [ suc _ ↦ is_one_line (skip_blanks text) | _ ↦ false ]

is_banner : Bytes → Bytes → Bool
unfolding starts_with names_object
is_banner text banner = starts_with banner text && names_object (drop (length banner) text)

-- The new `lastSectionComment`.
unfoldable pub note_section_comment : Bytes → Option Bytes → Option Bytes
unfolding is_banner any trim_text decoded
note_section_comment comment last =
    let text = trim_text (decoded comment) in
    if any (is_banner text) banners then some text else last
