-- ===== src/Examples/Drives.antt =====
-- The theorems about the run service at work on a sample conversation.
use agentchatbot_v.Prelude.{◌⊎◌, ◌≡◌, refl, ◌⊎◌, false, none, some, List, [], ◌∷◌, ◌++◌, arith}
use agentchatbot_v.Text.{Text, codes}
use agentchatbot_v.Store.Schema.{Failure, err, ok, Status, RunEvent, ok, err}
use agentchatbot_v.Store.Runs.{find_run}
use agentchatbot_v.Store.Forks.{get_thread_citations}
use agentchatbot_v.Run.World.{World, others, outage}
use agentchatbot_v.Run.Chat.{Round, chunk, interrupt, updates}
use agentchatbot_v.Run.Markers.{find_all}
use agentchatbot_v.Run.Compose.{compose, distinct}
use agentchatbot_v.Run.Handle.{Running}
use agentchatbot_v.Run.Finalize.{finalize, forged_in, valid_ids, body_of}
use agentchatbot_v.Run.Drive.{drive, loop, pause}
use agentchatbot_v.Run.Emissions.{EndsOnce}
use agentchatbot_v.Run.Emissions.Terminal.{drive_ends_once}
use agentchatbot_v.Run.Alone.{forged_answer_withheld, pause_revives}
use agentchatbot_v.Run.Hidden.{IsPlain, hidden_marker, hidden_marker_published}
use agentchatbot_v.Run.Settled.Ends.{Rests}
use agentchatbot_v.Run.Settled.Outcome.{drive_settles}
use agentchatbot_v.Examples.Sample.{sample_row, ended, run_in, busy, world_of, state}

abbrev rounds : List Round
rounds =
    record { cancel = false; item = chunk (updates []) }
    ∷ record { cancel = false; item = chunk (interrupt (some (codes "sure?") ∷ [])) }
    ∷ []

abbrev contested : World
contested = record (world_of busy) { turns = others (λ db. db) ∷ outage ∷ [] }

drive_ends_once_example :
    (es : List RunEvent) × ((drive rounds (state []) 1 contested).1.out ≡ contested.out ++ es)
    × EndsOnce es
drive_ends_once_example = drive_ends_once rounds (state []) 1 contested

abbrev forged_draft : Text
forged_draft = codes "[[cite:zz]]"

found :
    forged_in
      (valid_ids (state forged_draft) (get_thread_citations 1 busy))
      (find_all (body_of forged_draft))
    ≡ codes "zz" ∷ []
unfolding forged_in get_thread_citations find_all body_of
found = refl

forged_answer_withheld_example :
    (finalize (state forged_draft) 1 (world_of busy)).1.db.messages ≡ busy.messages
forged_answer_withheld_example =
    forged_answer_withheld (state forged_draft) 1 (world_of busy) (codes "zz") [] refl found

letter_z : IsPlain b'z'
letter_z = record { ascii = ground arith; not_open = ground arith; not_close = ground arith }

hidden_marker_published_example :
    let body = body_of (hidden_marker (codes "zz")) in
    (forged_in (codes "ab-1" ∷ []) (find_all body) ≡ [])
    × (find_all (compose body (distinct (find_all body)) []) ≡ codes "zz" ∷ [])
hidden_marker_published_example =
    hidden_marker_published b'z' (b'z' ∷ []) (codes "ab-1" ∷ []) [] (letter_z, (letter_z, tt))

pause_revives_example :
    find_run 10 (pause 10 1 (none ∷ []) (world_of ended)).1.db
    ≡ some (run_in 10 Status.awaiting_approval (some 125))
pause_revives_example =
    pause_revives 10 1 (none ∷ []) (world_of ended) (run_in 10 Status.interrupted (some 125)) refl
      (sample_row Status.interrupted (some 125)) refl

drive_settles_example :
    Rests 10 (drive rounds (state []) 1 (world_of busy)).1.db
    ⊎ ((rs' : Running) × (e : Failure) × ((loop rounds (state []) 1 (world_of busy)).0
          ≡ ok (some rs'))
        × ((drive rounds (state []) 1 (world_of busy)).0 ≡ err e))
drive_settles_example = drive_settles rounds (state []) 1 (world_of busy) refl (refl, (refl, tt))
