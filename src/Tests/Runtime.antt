-- ===== src/Tests/Runtime.antt =====
-- Frames of the server on concrete values.
use seed_origin.Base.{
  ℕ, true, List, [], ◌∷◌, ◌++◌, replicate, none, ℤ, pos, codes, lookup, ℕ_key, ok, refl,
}
use seed_origin.Session.Registry.{new_registry}
use seed_origin.Server.ClientSession.{progress, peer_gone}
use seed_origin.Server.Presence.{LoginFieldSpawnSettings, new_stub}
use seed_origin.Server.Runtime.{new_runtime}
use seed_origin.Server.Runtime.Answers.{Serving}
use seed_origin.Server.Runtime.Frame.{Sockets}
use seed_origin.Server.Runtime.Served.{IsServed, serve_frames, serve_frames-IsServed}
use seed_origin.Tests.Field.{whole_numbers, whole_texts}
use seed_origin.Tests.Server.{dispatcher, one_user}

abbrev spawn_settings : LoginFieldSpawnSettings ℤ
spawn_settings = record {
  x = pos 0;
  y = pos 0;
  z = pos 0;
  hp = pos 10;
  mp = pos 10;
  max_hp = pos 1024;
  max_mp = pos 1024;
  player_name = codes "Ann";
}

abbrev begun : Serving ℤ ℕ
begun = record {
  runtime = record new_runtime { running = true };
  dispatcher = record dispatcher { registry = new_registry [] };
  names = [];
  player_ids = new_stub;
  error = none;
}

-- A login with a challenge of one byte.
abbrev login_bytes : List ℕ
login_bytes = 0 ∷ 1 ∷ 0 ∷ 1 ∷ replicate 11 0 ++ 1 ∷ 107 ∷ []

-- A client comes and logs in.
abbrev arrival : Sockets
arrival = record { arrivals = ok tt ∷ []; input = λ c. progress login_bytes; output = λ c. [] }

-- It goes away.
abbrev farewell_frame : Sockets
farewell_frame = record { arrivals = []; input = λ c. peer_gone; output = λ c. [] }

none_yet : IsServed 1 begun.runtime
unfolding IsServed lookup
none_yet = refl

serve_frames-IsServed_example :
    IsServed 1
      (serve_frames whole_numbers whole_texts one_user spawn_settings begun
        (arrival ∷ farewell_frame ∷ [])).runtime
serve_frames-IsServed_example =
    serve_frames-IsServed whole_numbers whole_texts one_user spawn_settings 1 begun
      (arrival ∷ farewell_frame ∷ []) none_yet
