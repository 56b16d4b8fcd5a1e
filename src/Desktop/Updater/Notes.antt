-- ===== src/Desktop/Updater/Notes.antt =====
-- `normalizeReleaseNotes` of src/main/updater/app-updater.ts.
use Prim.Native.String
use monitc.Prelude.{
  String, Option, none, some, List, [], ◌∷◌, is_text, trim, join, or_undefined, if◌then◌else◌,
}

-- An element of an array of notes: no object, or an object whose fields may be no strings.
pub data NoteItem : Type 0 where
  scalar : NoteItem
  entry : (version note : Option String) → NoteItem

-- The `unknown` that electron-updater hands over.
pub data ReleaseNotes : Type 0 where
  plain : String → ReleaseNotes
  items : List NoteItem → ReleaseNotes
  other : ReleaseNotes

abbrev trimmed : Option String → String
trimmed none = ""
trimmed (some note) = trim note

abbrev versioned : Option String → String → String
versioned none note = note
versioned (some version) note = String.◌++◌ "v" (String.◌++◌ version (String.◌++◌ "\n" note))

unfoldable pub note_text : NoteItem → String
note_text scalar = ""
note_text (entry version note) =
    let text = trimmed note in if is_text text then versioned version text else ""

-- `notes.map(…).filter(Boolean)`.
unfoldable pub note_texts : List NoteItem → List String
unfolding note_text
note_texts [] = []
note_texts (item ∷ more) =
    let rest = note_texts more in if is_text (note_text item) then note_text item ∷ rest else rest

unfoldable pub normalize_release_notes : ReleaseNotes → Option String
unfolding note_texts
normalize_release_notes (plain text) = or_undefined (trim text)
normalize_release_notes (items notes) = or_undefined (join "\n\n" (note_texts notes))
normalize_release_notes other = none
