-- ===== src/Session/Tests.antt =====
-- A session that ends and is not taken up again.
use papercrate.Base.{List, [], ◌∷◌, none}
use papercrate.Session.{
  AppAction, initial, run, login_request, login_success, tenant_selection_required,
}
use papercrate.Session.Laws.{IsSafe, run-IsSafe}

abbrev actions : List AppAction
actions = login_success "k" none ∷ tenant_selection_required "s" [] ∷ login_request ∷ []

run-IsSafe_example : IsSafe (run (initial "t" none) actions)
run-IsSafe_example = run-IsSafe "t" none actions
