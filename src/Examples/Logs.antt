-- ===== src/Examples/Logs.antt =====
-- The theorems about the run manager at work on a sample conversation.
use agentchatbot_v.Prelude.{
  [], List, map, All, length, sort_by, ◌++◌, ℕ, ◌<◌, ◌≡◌, refl, true, false, none, some, ◌∷◌, arith,
}
use agentchatbot_v.Store.Schema.{Status, Event, RunEvent, ok}
use agentchatbot_v.Manager.Pump.{tick, spawn_pump}
use agentchatbot_v.Manager.Tail.{db_terminal_event, stream}
use agentchatbot_v.Manager.Rows.{unseen_rows, IsKeyed}
use agentchatbot_v.Manager.Replay.{told, stream_replays}
use agentchatbot_v.Manager.Pumped.{IsNumbered}
use agentchatbot_v.Manager.Relay.{until_terminal, stream-spawn_pump}
use agentchatbot_v.Store.Runs.{open_run}
use agentchatbot_v.Run.World.{World}
use agentchatbot_v.Run.Wire.{Value, Entries, SseEvent}
use agentchatbot_v.Run.Wire.Reader.{read_stream}
use agentchatbot_v.Run.Wire.Meaning.{decimal-IsAtom, has_key}
use agentchatbot_v.Run.Wire.Framing.{frames, received, decode, read_stream-frames}
use agentchatbot_v.Manager.Reclaim.{fate, tick_unlocks}
use agentchatbot_v.Text.{codes, decimal}
use agentchatbot_v.Examples.Sample.{sample_row, started, ended, run_in, busy, world_of}

-- The world of an instance that drives no run.
abbrev idle : World
idle = record (world_of busy) { active = [] }

tick_unlocks_example :
    ((tick 10 1000 true idle).1.db.runs ≡ map (fate 130 10 []) busy.runs)
    × ((open_run 11 140 1 none (tick 10 1000 true idle).1.db).0 ≡ ok 11)
tick_unlocks_example = tick_unlocks 10 1000 true idle 1 11 140 none refl refl refl refl

abbrev sent : List (SseEvent ℕ)
sent =
    record {
      event = codes "tool.result" ++ (10 ∷ codes "data: x");
      data_of =
          Entries.entry (codes "text") (Value.text (codes "a" ++ (10 ∷ 10 ∷ [])))
            (Entries.entry (codes "score") (Value.float 3) Entries.end);
      seq = 12;
    }
    ∷ record { event = codes "run.done"; data_of = Entries.end; seq = 13 }
    ∷ []

no_seq : All (λ ev. has_key (codes "seq") ev.data_of ≡ false) sent
unfolding has_key
no_seq = (refl, (refl, tt))

read_stream-frames_example :
    map decode (read_stream (frames decimal sent)) ≡ map (received decimal) sent
read_stream-frames_example = read_stream-frames decimal decimal-IsAtom sent no_seq

-- The log of the ended run holds its start alone.
ended-IsKeyed : IsKeyed 10 ended.events
ended-IsKeyed q = ground arith

one_unseen : length (unseen_rows 10 0 ended) < 2
unfolding unseen_rows sort_by
one_unseen = omega arith

stream_replays_example :
    ((stream 2 10 0 (world_of ended)).0 ≡ ok true)
    × ((stream 2 10 0 (world_of ended)).1.out
        ≡ [] ++ told 10 Status.interrupted 0 (unseen_rows 10 0 ended))
stream_replays_example =
    stream_replays 2 10 0 (world_of ended) (run_in 10 Status.interrupted (some 125)) refl
      (sample_row Status.interrupted (some 125)) refl ended-IsKeyed one_unseen

-- What the stream tells there: the start, and the status of the run.
told_start_and_status :
    told 10 Status.interrupted 0 (unseen_rows 10 0 ended)
    ≡ record { event = started; seq = 1 }
      ∷ record { event = Event.run_done 10 (some Status.interrupted); seq = 2 }
      ∷ []
unfolding told unseen_rows sort_by db_terminal_event
told_start_and_status = refl

abbrev two_events : List RunEvent
two_events =
    record { event = Event.citation_added (codes "ab-1"); seq = 3 }
    ∷ record { event = Event.run_done 10 (some Status.interrupted); seq = 5 }
    ∷ []

two_events-IsNumbered : IsNumbered 2 two_events
unfolding IsNumbered
two_events-IsNumbered = (omega arith, (omega arith, tt))

stream-spawn_pump_example :
    let w = (spawn_pump two_events 1 10 (world_of ended)).1 in
    ((stream 3 10 2 w).0 ≡ ok true) × ((stream 3 10 2 w).1.out ≡ [] ++ until_terminal two_events)
stream-spawn_pump_example =
    stream-spawn_pump 3 1 10 2 two_events (world_of ended) (run_in 10 Status.interrupted (some 125))
      refl (sample_row Status.interrupted (some 125)) refl ended-IsKeyed refl two_events-IsNumbered
      refl (omega arith)
