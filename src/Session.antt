-- ===== src/Session.antt =====
-- The state of a session: `appStateReducer` and the initial state of
-- frontend/src/lib/store/appState.tsx. A tenant is the fields of its object, none for null.
pub mod Laws
mod Tests
use papercrate.Base.{
  String, Bool, true, false, List, [], ◌∷◌, Option, none, some, ◌==◌, if◌then◌else◌, not, or_else,
}
use papercrate.Js.{Fields}

pub record TenantSelection : Type 0 where
  pub selection_token : String
  pub tenants : List (Option Fields)

pub data AppStatus : Type 0 where
  logged_out authenticating authenticated selecting_tenant bootstrapping ready : AppStatus

pub record AppState : Type 0 where
  pub status : AppStatus
  pub token : String
  pub error : Option String
  pub is_refreshing : Bool
  pub tenant_selection : Option TenantSelection
  pub tenant : Option Fields
  pub tenants : List (Option Fields)

-- An optional property that is missing, undefined or null is none; so is a `tenants` that is no
-- array.
pub data AppAction : Type 0 where
  login_request : AppAction
  login_success : String → Option Fields → AppAction
  login_failure : Option String → AppAction
  tenant_selection_required : String → List (Option Fields) → AppAction
  clear_tenant_selection logout_success bootstrap_start bootstrap_success : AppAction
  bootstrap_failure : Option String → AppAction
  token_refresh_start : AppAction
  token_refresh_success : String → Option Fields → AppAction
  token_refresh_failure : Option String → AppAction
  logout reset_error : AppAction
  set_tenants : Option (List (Option Fields)) → AppAction

-- `initialAppState`, from what the session storage has
unfoldable pub initial : String → Option Fields → AppState
initial stored_token stored_tenant = record {
  status = if stored_token == "" then logged_out else authenticated;
  token = stored_token;
  error = none;
  is_refreshing = false;
  tenant_selection = none;
  tenant = stored_tenant;
  tenants = [];
}

-- the state that the failures and the logouts leave
abbrev pub signed_out : Option String → AppState
signed_out error = record {
  status = logged_out;
  token = "";
  error = error;
  is_refreshing = false;
  tenant_selection = none;
  tenant = none;
  tenants = [];
}

-- `state.status === 'logged-out' ? 'authenticated' : state.status`
unfoldable pub refreshed : AppStatus → AppStatus
refreshed logged_out = authenticated
refreshed status = status

unfoldable pub either_tenant : Option Fields → Option Fields → Option Fields
either_tenant none old = old
either_tenant (some new) old = some new

unfoldable pub app_state_reducer : AppState → AppAction → AppState
unfolding refreshed either_tenant
app_state_reducer s login_request = record s {
  status = authenticating;
  error = none;
  tenant_selection = none;
  tenant = none;
  tenants = [];
}
app_state_reducer s (login_success token tenant) = record s {
  status = authenticated;
  token = token;
  error = none;
  tenant_selection = none;
  tenant = tenant;
}
app_state_reducer s (login_failure error) = signed_out error
app_state_reducer s (tenant_selection_required selection_token tenants) = record {
  status = selecting_tenant;
  token = "";
  error = none;
  is_refreshing = false;
  tenant_selection = some (record { selection_token = selection_token; tenants = tenants });
  tenant = none;
  tenants = [];
}
app_state_reducer s clear_tenant_selection = signed_out none
app_state_reducer s logout_success = signed_out none
app_state_reducer s logout = signed_out none
app_state_reducer s bootstrap_start = record s { status = bootstrapping; error = none }
app_state_reducer s bootstrap_success = record s { status = ready; error = none }
app_state_reducer s (bootstrap_failure error) = record s { status = authenticated; error = error }
app_state_reducer s token_refresh_start = record s { is_refreshing = true; error = none }
app_state_reducer s (token_refresh_success token tenant) = record s {
  token = token;
  is_refreshing = false;
  status = refreshed s.status;
  tenant_selection = none;
  tenant = either_tenant tenant s.tenant;
}
app_state_reducer s (token_refresh_failure error) = signed_out error
app_state_reducer s reset_error = record s { error = none }
app_state_reducer s (set_tenants none) = record s { tenants = [] }
app_state_reducer s (set_tenants (some tenants)) = record s { tenants = tenants }

-- the state after the actions dispatched, in order
unfoldable pub run : AppState → List AppAction → AppState
unfolding app_state_reducer
run s [] = s
run s (a ∷ actions) = run (app_state_reducer s a) actions
