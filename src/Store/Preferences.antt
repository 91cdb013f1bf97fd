-- ===== src/Store/Preferences.antt =====
-- What a partial update of the settings keeps.
use agentchatbot_v.Prelude.{Option, none, some}
use agentchatbot_v.Text.{Text}
use agentchatbot_v.Store.Schema.{Settings}
use agentchatbot_v.Store.Threads.{Sent, or_kept}

-- A row after an update: a field that was not sent is kept, one that was sent has its value.
abbrev pub merged : Sent → Sent → Sent → Settings → Settings
merged model server_url theme row = record row {
  model = or_kept model row.model;
  server_url = or_kept server_url row.server_url;
  theme = or_kept theme row.theme;
}

abbrev pub blank : Text → Settings
blank scope = record { scope = scope; model = none; server_url = none; theme = none }

abbrev pub or_blank : Text → Option Settings → Settings
or_blank scope none = blank scope
or_blank scope (some row) = row
