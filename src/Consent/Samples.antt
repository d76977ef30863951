-- ===== src/Consent/Samples.antt =====
-- Records, files and services that the examples share.
use ido_bata_server_bot.Prelude.{String, refl, inl, inr, true, Option, none, List, [], ◌∷◌}
use ido_bata_server_bot.Consent.Types.{ConsentSource, ConsentRecord, profile, is_valid_record}
use ido_bata_server_bot.Consent.RepositoryJson.{Disk, JsonRepository, present, store_json}
use ido_bata_server_bot.Consent.RepositoryJson.Laws.{IsReady, stored}
use ido_bata_server_bot.Consent.Service.{Options, Service}
use ido_bata_server_bot.Consent.Service.Laws.{IsCoherent}

abbrev pub message : ConsentSource
message = record { guild_id = "g"; channel_id = "c"; message_id = "m1"; emoji = "P" }

abbrev pub new_message : ConsentSource
new_message = record { guild_id = "g"; channel_id = "c"; message_id = "m2"; emoji = "P" }

abbrev pub row : String → ConsentSource → Option String → ConsentRecord
row subject source revoked_at = record {
  subject_id = subject;
  scope = profile;
  policy_version = "v0.2.0";
  granted_at = "t0";
  revoked_at = revoked_at;
  source = source;
}

abbrev pub disk_with : List ConsentRecord → Disk
disk_with rows = record {
  file = present (store_json 1 rows);
  backups = [];
  temps = 0;
  reads = [];
  moves = [];
  writes = [];
}

abbrev pub loaded : List ConsentRecord → JsonRepository
loaded rows = record {
  disk = disk_with rows;
  records = rows;
  last_load_recognised = true;
  last_load_existed = true;
}

abbrev pub options : Options
options = record {
  policy_version = "v0.2.0";
  emoji_to_scope = ("P", profile) ∷ [];
  bot_user_id = "bot";
}

abbrev pub service : List ConsentRecord → Service JsonRepository
service rows = record { storage = loaded rows; cache = none; listeners = 1 ∷ []; delivered = [] }

abbrev pub one_row : List ConsentRecord
one_row = row "ann" message none ∷ []

abbrev pub two_rows : List ConsentRecord
two_rows = row "ann" message none ∷ row "ann" new_message none ∷ []

pub one_row-IsReady : IsReady (loaded one_row)
unfolding is_valid_record
one_row-IsReady = record { readable = refl; in_step = inr (refl, refl, refl, refl) }

pub two_rows-IsReady : IsReady (loaded two_rows)
unfolding is_valid_record
two_rows-IsReady = record { readable = refl; in_step = inr (refl, refl, refl, refl) }

pub one_row-IsCoherent : IsCoherent stored IsReady (service one_row)
one_row-IsCoherent = record { ready = one_row-IsReady; fresh = inl refl }

pub two_rows-IsCoherent : IsCoherent stored IsReady (service two_rows)
two_rows-IsCoherent = record { ready = two_rows-IsReady; fresh = inl refl }
