-- ===== src/Models/Commit.antt =====
-- `CancelEvent` of engine/models/downloader.py under any order of its calls.
use inference_engine.Prelude.{◌≡◌, refl, Bool, true, false, ◌&&◌, ◌||◌, List, [], ◌∷◌}
use inference_engine.Models.Download.{CancelEvent, new_cancel, request, commit}

-- The calls of the cancel flag, in the order in which they hold the lock
pub data Call : Type 0 where
  requesting : Call
  promoting : Call

-- The calls with their answers
unfoldable pub answers : CancelEvent → List Call → List (Call × Bool)
unfolding request commit
answers c [] = []
answers c (requesting ∷ calls) = (requesting, (request c).1) ∷ answers (request c).0 calls
answers c (promoting ∷ calls) = (promoting, (commit c).1) ∷ answers (commit c).0 calls

-- Whether a request was accepted, and whether the file was promoted
abbrev pub accepted : List (Call × Bool) → Bool
accepted [] = false
accepted ((requesting, b) ∷ cs) = b || accepted cs
accepted ((promoting, b) ∷ cs) = accepted cs

abbrev pub promoted : List (Call × Bool) → Bool
promoted [] = false
promoted ((requesting, b) ∷ cs) = promoted cs
promoted ((promoting, b) ∷ cs) = b || promoted cs

refused_after_commit :
    (calls : List Call)
    → accepted (answers (record { is_set = false; committed = true }) calls) ≡ false
unfolding answers request commit
refused_after_commit [] = refl
refused_after_commit (requesting ∷ calls) = refused_after_commit calls
refused_after_commit (promoting ∷ calls) = refused_after_commit calls

never_promoted :
    (calls : List Call)
    → promoted (answers (record { is_set = true; committed = false }) calls) ≡ false
unfolding answers request commit
never_promoted [] = refl
never_promoted (requesting ∷ calls) = never_promoted calls
never_promoted (promoting ∷ calls) = never_promoted calls

-- However requests to cancel and the promotion of the file follow each other: not both a request is
-- accepted and the file promoted.
pub accepted-promoted :
    (calls : List Call)
    → (accepted (answers new_cancel calls) && promoted (answers new_cancel calls)) ≡ false
unfolding answers request commit
accepted-promoted [] = refl
accepted-promoted (requesting ∷ calls) = never_promoted calls
accepted-promoted (promoting ∷ calls) = rw (refused_after_commit calls) refl
