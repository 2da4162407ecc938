-- ===== src/Code/Tests.antt =====
-- src/code/code.gateway.ts and src/code/code-doc.service.ts on a document that is its list of roots.
use livetich_api.Prelude.{
  ℕ, ◌≡◌, refl, Text, codes, same, Bool, true, false, none, some, List, [], ◌∷◌, ◌++◌, length,
  arith,
}
use livetich_api.Identity.{Role, instructor, student}
use livetich_api.Code.{
  segments_of, ends_with, last_of, is_safe_document_path, is_protected_code_path,
}
use livetich_api.Code.Doc.{Yjs, Shared, buffer, instructor_only, open_, can_write}
use livetich_api.Code.Quota.{IsWithin, files, text_bytes}
use livetich_api.Code.Gateway.{SocketData, CodeEntry, Mark, Outside, Window}
use livetich_api.Code.Messages.{Message, update, cursor, permission, handle}
use livetich_api.Code.Control.{IsIdle, handle-IsIdle}
use livetich_api.Code.Held.{after, after-IsWithin}
use livetich_api.Code.Numbers.{last_number, Ascends, IsBounded, numbers_of}
use livetich_api.Code.Pace.{run, run-Ascends}

abbrev lower : Text → Text
lower s = s

abbrev main_file : Text
main_file = codes "src/main.ts"

safe : is_safe_document_path lower main_file ≡ true
unfolding is_safe_document_path segments_of same
safe = refl

key_is_protected : is_protected_code_path lower (codes "deploy/prod.pem") ≡ true
unfolding is_protected_code_path segments_of last_of ends_with same
key_is_protected = refl

abbrev roots : Yjs
roots = record {
  Doc = List (Text × Shared);
  Update = List (Text × Shared);
  apply_update_to = λ d u. some (d ++ u);
  share = λ d. d;
  byte_length = λ d. length d;
  utf8_length = λ s. length s;
}

abbrev outside : Outside
outside = record {
  yjs = roots;
  Tree = ℕ;
  to_lower_case = lower;
  seed_update = λ d path content.
      some ((codes "file:" ++ path, buffer (length content) (length content)) ∷ []);
  update_length = λ u. length u;
}

abbrev fresh : CodeEntry outside
fresh = record {
  doc = [];
  dirty = false;
  permission = instructor_only;
  tree = none;
  focus = none;
  expanded_folders = none;
}

abbrev quiet : Window
quiet = record { started_at = 0; count = 0 }

abbrev socket : Role → Bool → SocketData
socket role controls = record {
  user = record { sub = codes "u1"; role = role; name = codes "U"; organization_id = none };
  joined = true;
  controls = controls;
  source_sequences = [];
  cursor_window = quiet;
  pointer_window = quiet;
  awareness_window = quiet;
}

abbrev typed : List (Text × Shared)
typed = (codes "file:src/main.ts", buffer 12 12) ∷ []

handle-IsIdle_example :
    IsIdle outside fresh (handle outside 5 (permission open_) (socket student false) fresh)
unfolding can_write
handle-IsIdle_example = handle-IsIdle outside 5 (permission open_) (socket student false) fresh refl

after-IsWithin_example :
    IsWithin roots lower
      (after outside ((5, (update (some typed), socket instructor true)) ∷ []) fresh).doc
unfolding files text_bytes
after-IsWithin_example =
    after-IsWithin outside ((5, (update (some typed), socket instructor true)) ∷ []) fresh
      (tt, omega arith, omega arith, omega arith)

abbrev moved : ℕ → Mark
moved n = record {
  path = some main_file;
  source_id = some (codes "window-01");
  sequence = some n;
  at = record { line = some 3; ch = some 0 };
  selection = none;
}

abbrev moves : List (ℕ × Message outside)
moves = (5, cursor (moved 1)) ∷ ((6, cursor (moved 4)) ∷ ((7, cursor (moved 4)) ∷ []))

run-Ascends_example :
    IsBounded (run outside moves (socket instructor true) fresh).0
    × Ascends
        (last_number (codes "window-01") (socket instructor true))
        (last_number (codes "window-01") (run outside moves (socket instructor true) fresh).0)
        (numbers_of outside
          (codes "window-01")
          (run outside moves (socket instructor true) fresh).1.1)
run-Ascends_example =
    run-Ascends outside (codes "window-01") moves (socket instructor true) fresh (omega arith)
