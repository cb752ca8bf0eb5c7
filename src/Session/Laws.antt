-- ===== src/Session/Laws.antt =====
-- What holds of the session after any actions.
use papercrate.Base.{
  ◌≡◌, refl, sym, ap, ◌∙◌, String, true, List, [], ◌∷◌, Option, none, some, arith, All, eq_iff,
  is_some,
}
use papercrate.Js.{Fields}
use papercrate.Session.{
  AppState, AppStatus, AppAction, logged_out, authenticating, authenticated, selecting_tenant,
  bootstrapping, ready, initial, app_state_reducer, run, refreshed, login_request, login_success,
  login_failure, tenant_selection_required, clear_tenant_selection, logout_success, bootstrap_start,
  bootstrap_success, bootstrap_failure, token_refresh_start, token_refresh_success,
  token_refresh_failure, logout, reset_error, set_tenants,
}

-- A logged-out session has no token and no tenant to choose, and there is no token while there is one
-- to choose.
pub record IsSafe (s : AppState) : Type 0 where
  pub no_token : s.status ≡ logged_out → s.token ≡ ""
  pub no_choice : s.status ≡ logged_out → s.tenant_selection ≡ none
  pub choosing : is_some s.tenant_selection ≡ true → s.token ≡ ""

refreshed_not : (status : AppStatus) → refreshed status ≡ logged_out → ⊥
unfolding refreshed
refreshed_not logged_out h = cc h
refreshed_not authenticating h = cc h
refreshed_not authenticated h = cc h
refreshed_not selecting_tenant h = cc h
refreshed_not bootstrapping h = cc h
refreshed_not ready h = cc h

-- The three ways in which an action leaves a session safe.
blank-IsSafe : (s : AppState) → s.token ≡ "" → s.tenant_selection ≡ none → IsSafe s
blank-IsSafe s token choice = record {
  no_token = λ h. token;
  no_choice = λ h. choice;
  choosing = λ h. token;
}

live-IsSafe : (s : AppState) → (s.status ≡ logged_out → ⊥) → s.tenant_selection ≡ none → IsSafe s
live-IsSafe s live choice = record {
  no_token = λ h. absurd (live h);
  no_choice = λ h. choice;
  choosing = λ h. ground arith;
}

moved-IsSafe :
    (s s' : AppState)
    → IsSafe s
    → (s'.status ≡ logged_out → s.status ≡ logged_out)
    → s'.token ≡ s.token
    → s'.tenant_selection ≡ s.tenant_selection
    → IsSafe s'
moved-IsSafe s s' v back token choice = record {
  no_token = λ h. token ∙ v.no_token (back h);
  no_choice = λ h. choice ∙ v.no_choice (back h);
  choosing = λ h. token ∙ v.choosing (ap is_some (sym choice) ∙ h);
}

app_state_reducer-IsSafe :
    (s : AppState) (a : AppAction) → IsSafe s → IsSafe (app_state_reducer s a)
unfolding app_state_reducer
app_state_reducer-IsSafe s login_request v = live-IsSafe _ (λ h. cc h) refl
app_state_reducer-IsSafe s (login_success t n) v = live-IsSafe _ (λ h. cc h) refl
app_state_reducer-IsSafe s (login_failure e) v = blank-IsSafe _ refl refl
app_state_reducer-IsSafe s clear_tenant_selection v = blank-IsSafe _ refl refl
app_state_reducer-IsSafe s logout_success v = blank-IsSafe _ refl refl
app_state_reducer-IsSafe s logout v = blank-IsSafe _ refl refl
app_state_reducer-IsSafe s (token_refresh_failure e) v = blank-IsSafe _ refl refl
app_state_reducer-IsSafe s (tenant_selection_required t ts) v = record {
  no_token = λ h. refl;
  no_choice = λ h. absurd (cc h);
  choosing = λ h. refl;
}
app_state_reducer-IsSafe s bootstrap_start v = moved-IsSafe s _ v (λ h. absurd (cc h)) refl refl
app_state_reducer-IsSafe s bootstrap_success v = moved-IsSafe s _ v (λ h. absurd (cc h)) refl refl
app_state_reducer-IsSafe s (bootstrap_failure e) v =
    moved-IsSafe s _ v (λ h. absurd (cc h)) refl refl
app_state_reducer-IsSafe s token_refresh_start v = moved-IsSafe s _ v (λ h. h) refl refl
app_state_reducer-IsSafe s reset_error v = moved-IsSafe s _ v (λ h. h) refl refl
app_state_reducer-IsSafe s (set_tenants none) v = moved-IsSafe s _ v (λ h. h) refl refl
app_state_reducer-IsSafe s (set_tenants (some ts)) v = moved-IsSafe s _ v (λ h. h) refl refl
app_state_reducer-IsSafe s (token_refresh_success t n) v =
    live-IsSafe _ (refreshed_not s.status) refl

run_from-IsSafe : (s : AppState) (actions : List AppAction) → IsSafe s → IsSafe (run s actions)
unfolding run
run_from-IsSafe s [] v = v
run_from-IsSafe s (a ∷ actions) v =
    run_from-IsSafe (app_state_reducer s a) actions (app_state_reducer-IsSafe s a v)

initial-IsSafe : (token : String) (tenant : Option Fields) → IsSafe (initial token tenant)
unfolding initial
initial-IsSafe token tenant = record {
  no_token = λ h. ground (arith, eq_iff token "");
  no_choice = λ h. refl;
  choosing = λ h. absurd (cc h);
}

-- Whatever the session storage has and whatever actions are dispatched: a logged-out session has
-- no token and no tenant to choose, and there is no token while a choice of tenant is open.
pub run-IsSafe :
    (token : String) (tenant : Option Fields) (actions : List AppAction)
    → IsSafe (run (initial token tenant) actions)
run-IsSafe token tenant actions =
    run_from-IsSafe (initial token tenant) actions (initial-IsSafe token tenant)

-- The actions that end a session.
unfoldable pub IsEnd : AppAction → Type 0
IsEnd (login_failure e) = Unit
IsEnd (tenant_selection_required t ts) = Unit
IsEnd clear_tenant_selection = Unit
IsEnd logout_success = Unit
IsEnd (token_refresh_failure e) = Unit
IsEnd logout = Unit
IsEnd _ = ⊥

-- The actions that bring no token.
unfoldable pub IsTokenless : AppAction → Type 0
IsTokenless (login_success t n) = ⊥
IsTokenless (token_refresh_success t n) = ⊥
IsTokenless _ = Unit

app_state_reducer-IsEnd :
    (s : AppState) (a : AppAction) → IsEnd a → (app_state_reducer s a).token ≡ ""
unfolding app_state_reducer IsEnd
app_state_reducer-IsEnd s login_request h = absurd h
app_state_reducer-IsEnd s (login_success t n) h = absurd h
app_state_reducer-IsEnd s (login_failure e) h = refl
app_state_reducer-IsEnd s (tenant_selection_required t ts) h = refl
app_state_reducer-IsEnd s clear_tenant_selection h = refl
app_state_reducer-IsEnd s logout_success h = refl
app_state_reducer-IsEnd s bootstrap_start h = absurd h
app_state_reducer-IsEnd s bootstrap_success h = absurd h
app_state_reducer-IsEnd s (bootstrap_failure r) h = absurd h
app_state_reducer-IsEnd s token_refresh_start h = absurd h
app_state_reducer-IsEnd s (token_refresh_success t n) h = absurd h
app_state_reducer-IsEnd s (token_refresh_failure e) h = refl
app_state_reducer-IsEnd s logout h = refl
app_state_reducer-IsEnd s reset_error h = absurd h
app_state_reducer-IsEnd s (set_tenants none) h = absurd h
app_state_reducer-IsEnd s (set_tenants (some ts)) h = absurd h

app_state_reducer-IsTokenless :
    (s : AppState) (a : AppAction)
    → IsTokenless a
    → s.token ≡ ""
    → (app_state_reducer s a).token ≡ ""
unfolding app_state_reducer IsTokenless
app_state_reducer-IsTokenless s login_request h e = e
app_state_reducer-IsTokenless s (login_success t n) h e = absurd h
app_state_reducer-IsTokenless s (login_failure r) h e = refl
app_state_reducer-IsTokenless s (tenant_selection_required t ts) h e = refl
app_state_reducer-IsTokenless s clear_tenant_selection h e = refl
app_state_reducer-IsTokenless s logout_success h e = refl
app_state_reducer-IsTokenless s bootstrap_start h e = e
app_state_reducer-IsTokenless s bootstrap_success h e = e
app_state_reducer-IsTokenless s (bootstrap_failure r) h e = e
app_state_reducer-IsTokenless s token_refresh_start h e = e
app_state_reducer-IsTokenless s (token_refresh_success t n) h e = absurd h
app_state_reducer-IsTokenless s (token_refresh_failure r) h e = refl
app_state_reducer-IsTokenless s logout h e = refl
app_state_reducer-IsTokenless s reset_error h e = e
app_state_reducer-IsTokenless s (set_tenants none) h e = e
app_state_reducer-IsTokenless s (set_tenants (some ts)) h e = e

run-IsTokenless :
    (s : AppState) (actions : List AppAction)
    → All IsTokenless actions
    → s.token ≡ ""
    → (run s actions).token ≡ ""
unfolding run
run-IsTokenless s [] h e = e
run-IsTokenless s (a ∷ actions) h e =
    run-IsTokenless (app_state_reducer s a) actions h.1 (app_state_reducer-IsTokenless s a h.0 e)

-- Once an action has ended the session, there is no token again before an action brings one.
pub ended_stays_ended :
    (s : AppState) (a : AppAction) (actions : List AppAction)
    → IsEnd a
    → All IsTokenless actions
    → (run s (a ∷ actions)).token ≡ ""
unfolding run
ended_stays_ended s a actions h q =
    run-IsTokenless (app_state_reducer s a) actions q (app_state_reducer-IsEnd s a h)
