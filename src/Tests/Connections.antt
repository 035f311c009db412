-- ===== src/Tests/Connections.antt =====
-- Runs of whole connections.
use the_score.Base.{true, [], ◌∷◌, ◌≡◌, ◌≢◌, refl, map, arith, ap}
use Prim.Native.String.{count}
use the_score.Store.Sessions.{upsert_session}
use the_score.Api.Reconcile.{listed}
use the_score.Api.Serve.{Request, request, broken, Turn, serve_conn}
use the_score.Api.Serve.Answers.{serve_conn-ids}
use the_score.Tests.{linux, codex, reported, one_session}
use the_score.Tests.Requests.{daemon, decoder}

abbrev ask_list : Request
ask_list = record { id = "1"; method = "sessions/list"; params = "{}" }

abbrev ask_unknown : Request
ask_unknown = record { id = "2"; method = "unknown"; params = "" }

abbrev listing_turn : Turn
listing_turn = record {
  incoming = request ask_list;
  meanwhile = λ s. s;
  listing = listed (codex ∷ []);
  sent = true;
}

abbrev unknown_turn : Turn
unknown_turn = record {
  incoming = request ask_unknown;
  meanwhile = λ s. (upsert_session reported s).0;
  listing = listed [];
  sent = true;
}

abbrev broken_turn : Turn
broken_turn = record unknown_turn { incoming = broken "invalid character" }

other_method : ask_list.method ≢ "events/subscribe"
other_method e = omega (arith, ap count e)

no_method : ask_unknown.method ≢ "events/subscribe"
no_method e = omega (arith, ap count e)

serve_conn-ids_example :
    map
      (λ response. response.id)
      (serve_conn daemon linux decoder (listing_turn ∷ unknown_turn ∷ []) one_session).responses
    ≡ "1" ∷ "2" ∷ []
serve_conn-ids_example =
    serve_conn-ids daemon linux decoder (listing_turn ∷ unknown_turn ∷ []) one_session
      ((other_method, refl), ((no_method, refl), tt))

abbrev subscription : Request
subscription = record { id = "3"; method = "events/subscribe"; params = "{}" }
