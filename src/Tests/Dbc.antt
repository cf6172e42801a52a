-- ===== src/Tests/Dbc.antt =====
-- The DBC resolver: a registry that fails twice and then replies, and a session that is cached.
use robo_services.Prelude.{ℕ, ◌≢◌, true, [], ◌∷◌, String, Option, some, err}
use robo_services.Prelude.{string_eq, pair_eq}
use robo_services.Decode.{
  Dbc, Body, body, not_compiled, DbcResolver, Call, Answer, dbc, for_session,
}
use robo_services.Decode.Retries.{fails_then}
use robo_services.Decode.Compiled.{after, for_session_compiled}

abbrev default_dbc : Dbc ℕ
default_dbc = record { name = "default"; messages = 0 }

abbrev load_dbc : String → Option ℕ
load_dbc content = some 1

abbrev reply : Body
reply = body (some "abc") (some "car") (some "BO_ 1")

abbrev call : Call
call = record { device_id = "d1"; source_session = "s1"; now = 10; fetches = fails_then 2 reply [] }

abbrev new_resolver : DbcResolver ℕ
new_resolver = record { sessions = []; compiled = [] }

for_session_compiled_example :
    (for_session default_dbc true load_dbc
      (after default_dbc true load_dbc (call ∷ []) new_resolver)
      "d1"
      "s1"
      20
      []).1
    ≢ some (err not_compiled)
for_session_compiled_example =
    for_session_compiled default_dbc true load_dbc (call ∷ [])
      (record call { now = 20; fetches = [] })

abbrev car_dbc : Answer ℕ
car_dbc = dbc (record { name = "car"; messages = 1 })
