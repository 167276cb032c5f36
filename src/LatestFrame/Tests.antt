-- ===== src/LatestFrame/Tests.antt =====
-- Runs of pipeline/src/latest_frame.cpp, and its theorems at concrete inputs.
use perception_pipeline.Prelude.{List, [], arith, refl, some, true, ℕ, ◌∷◌, ◌≡◌}
use mathlib.Core.List.{Sublist}
use perception_pipeline.LatestFrame.{LatestFrame, create, offer, take_latest, acquire_latest, stop}
use perception_pipeline.LatestFrame.Mailbox.{
  Call, offers, takes, waits, stops, call, calls, opened, Accounts, calls-opened-Accounts,
  calls-taken-sublist,
}

abbrev session : List (Call ℕ)
session =
    offers 1
    ∷ offers 2
    ∷ takes
    ∷ takes
    ∷ offers 3
    ∷ offers 4
    ∷ waits
    ∷ offers 5
    ∷ stops
    ∷ offers 6
    ∷ []

session_taken : (calls opened session).taken ≡ 4 ∷ 2 ∷ []
unfolding calls call create offer take_latest acquire_latest stop
session_taken = refl

calls-opened-Accounts_example : Accounts 6 (calls opened session)
calls-opened-Accounts_example = calls-opened-Accounts session (omega arith)

calls-taken-sublist_example : Sublist (calls opened session).taken (6 ∷ 5 ∷ 4 ∷ 3 ∷ 2 ∷ 1 ∷ [])
calls-taken-sublist_example = calls-taken-sublist session

abbrev waiting : LatestFrame ℕ
waiting = record { latest = some 7; running = true; offered = 1; skipped = 0 }
