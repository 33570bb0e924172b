-- ===== src/Route/Tests.antt =====
-- conformance/check_transport_route.py: `main`'s test of the names, on the cases of `build`.
use construct_protos.Prelude.{◌≡◌, refl, true}
use construct_protos.Route.Cases.{names, no_duplicates}

-- The names of the cases are all different, which is what `main` asks of them.
no_duplicates-names : no_duplicates names ≡ true
unfolding no_duplicates
no_duplicates-names = refl
