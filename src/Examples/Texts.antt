-- ===== src/Examples/Texts.antt =====
-- The theorems about texts, checkpoints and hits at work on small inputs.
use agentchatbot_v.Prelude.{
  ℕ, ◌≤◌, All, ltb, if◌then◌else◌, ◌≡◌, none, some, List, [], ◌∷◌, arith, exists, count, length,
}
use agentchatbot_v.Text.{Text, codes, strip}
use agentchatbot_v.Store.Schema.{Content}
use agentchatbot_v.Corpus.Windows.{split_windows, stitch, step_of, split_windows_lem}
use agentchatbot_v.Agent.Checkpoint.{Kind, LcMessage, clear_interrupted_tools}
use agentchatbot_v.Agent.Prefix.{Cleaned, clear_interrupted_tools_lem}
use agentchatbot_v.Corpus.Retrieval.{Hit, has_uri, dedup_by_article}
use agentchatbot_v.Corpus.Merging.{dedup_by_article_lem}

four : 1 ≤ 4
four = omega arith

split_windows_lem_example :
    All (λ w. length w ≤ 4) (split_windows (codes " abcdefghij") 4 1)
    × (stitch (step_of 4 1) (split_windows (codes " abcdefghij") 4 1) ≡ strip (codes " abcdefghij"))
split_windows_lem_example = split_windows_lem (codes " abcdefghij") 4 1 four

abbrev asking : LcMessage
asking = record {
  kind = Kind.ai;
  id = some (codes "m");
  content = Content.other;
  tool_calls =
      record { id = some (codes "a"); name = none; args = none }
      ∷ record { id = some (codes "b"); name = none; args = none }
      ∷ [];
}

abbrev cancelled : List LcMessage
cancelled =
    record { kind = Kind.human; id = none; content = Content.str (codes "?"); tool_calls = [] }
    ∷ record { kind = Kind.ai; id = none; content = Content.str (codes "!"); tool_calls = [] }
    ∷ asking
    ∷ []

clear_interrupted_tools_lem_example : Cleaned cancelled (clear_interrupted_tools cancelled)
clear_interrupted_tools_lem_example = clear_interrupted_tools_lem cancelled

abbrev hit_of : Text → ℕ → Hit ℕ
hit_of u n = record {
  score = n;
  payload = record {
    uri = u;
    resource_id = codes "1";
    statute = codes "law";
    article_no = codes "2";
    eff_date = [];
    text = none;
    article_text = none;
  };
}

abbrev hits : List (Hit ℕ)
hits = hit_of (codes "u") 3 ∷ hit_of (codes "v") 5 ∷ hit_of (codes "u") 4 ∷ []

dedup_by_article_lem_example :
    count (has_uri (codes "u")) (dedup_by_article (λ a b. ltb b a) hits)
    ≡ (if exists (has_uri (codes "u")) hits then 1 else 0)
dedup_by_article_lem_example = dedup_by_article_lem (λ a b. ltb b a) (codes "u") hits
