-- ===== src/Secrets.antt =====
-- orchestration/plugins/openbao_hook.py: reading secrets, with a client that is kept while it is
-- authenticated. The `hvac` library, Airflow's variables and connections and the environment are
-- parameters.
pub mod Laws
use Prim.Native.String
use batch_ingestion_service.Prelude.{
  ℕ, ◌+◌, Char, code, String, ◌<>◌, Bool, true, false, not, ◌&&◌, ◌||◌, Option, none, some, nat_eq,
  leb, is_empty, ◌==◌, if◌then◌else◌,
}
use batch_ingestion_service.Prelude.Int.{pos}
use batch_ingestion_service.Py.Exc.{Result, ok, err, raise, value_error, runtime_error, ◌>>=◌, ◌>>◌}
use batch_ingestion_service.Py.Number.{decimal}
use batch_ingestion_service.Py.Value.{Value, as_dict, get_item}

-- the fields of an Airflow connection that are read; an absent text is empty, an absent port 0
pub record Connection : Type 0 where
  pub host : String
  pub port : ℕ
  pub schema : String

-- What the hook asks of Airflow, of the environment and of `hvac`, whose clients are values of `C`.
-- A server answers for a client at a moment.
pub record Api (C : Type 0) : Type 0 where
  pub variable : String → Result (Option String)
  pub environ : String → Option String
  pub connection : String → Result Connection
  pub new_client : String → C
  pub set_token : String → C → C
  pub login : String → String → String → C → Result C
  pub is_authenticated : ℕ → C → Result Bool
  pub read_secret : C → Value → Result Value

pub data AuthMethod : Type 0 where
  token userpass : AuthMethod

-- `str(method)`
method_text : AuthMethod → String
method_text token = "OpenBaoAuthMethod.TOKEN"
method_text userpass = "OpenBaoAuthMethod.USERPASS"

pub record Hook (C : Type 0) : Type 0 where
  pub openbao_conn_id : String
  pub client : Option C

-- `s.lower()` on ASCII letters; no other character becomes a letter of "userpass"
abbrev lower_char : Char → Char → Bool
lower_char c d =
    nat_eq (code c) (code d) || nat_eq (code c + 32) (code d) && leb 65 (code c) && leb (code c) 90

-- `s.lower() == t`, for a text `t` of small letters
unfoldable pub lower_equals : String → String → Bool
lower_equals String.[] String.[] = true
lower_equals (String.◌∷◌ c s) (String.◌∷◌ d t) = lower_char c d && lower_equals s t
lower_equals _ _ = false

-- `":" in host.split("//")[-1]`, with what stands before in the current piece
unfoldable pub colon_after : Bool → String → Bool
colon_after seen String.[] = seen
colon_after seen (String.◌∷◌ a String.[]) = seen || nat_eq (code a) b':'
colon_after seen (String.◌∷◌ a (String.◌∷◌ b s)) =
    let next_piece = colon_after false s in
    let same_piece = colon_after (seen || nat_eq (code a) b':') (String.◌∷◌ b s) in
    if nat_eq (code a) b'/' && nat_eq (code b) b'/' then next_piece else same_piece

or_text : Option String → String
or_text none = ""
or_text (some s) = s

module _ {C : Type 0} (api : Api C) where
  -- what an Airflow Variable gives, or the environment
  chosen : Result (Option String) → String → String
  unfolding or_text
  chosen (ok (some value)) fallback = value
  chosen (ok none) fallback = or_text (api.environ fallback)
  chosen (err _) fallback = or_text (api.environ fallback)

  -- `_get_var`
  unfoldable pub get_var : String → String → String
  unfolding chosen
  get_var variable_key env_fallback = chosen (api.variable variable_key) env_fallback

  unfoldable pub url_of : Connection → String
  unfolding colon_after
  url_of conn =
      let host = if is_empty conn.host then "http://localhost" else conn.host in
      if not (nat_eq conn.port 0) && not (colon_after false host)
      then host <> ":" <> decimal conn.port
      else host

  -- `_resolve_url`
  unfoldable pub resolve_url : String → Result String
  unfolding url_of
  resolve_url conn_id = do conn ← api.connection conn_id; ok (url_of conn)

  -- `_resolve_auth_method`: an absent or unknown method is `token`
  unfoldable pub resolve_auth_method : AuthMethod
  unfolding get_var lower_equals
  resolve_auth_method =
      if lower_equals (get_var "openbao_auth_method" "OPENBAO_AUTH_METHOD") "userpass"
      then userpass
      else token

  -- `_auth_token`
  unfoldable pub auth_token : C → Result C
  unfolding get_var
  auth_token client =
      let token_text = get_var "openbao_token" "OPENBAO_TOKEN" in
      if is_empty token_text
      then raise runtime_error
          "Token auth requires the Airflow Variable 'openbao_token' or the OPENBAO_TOKEN environment variable to be set."
      else ok (api.set_token token_text client)

  -- `_auth_userpass`
  unfoldable pub auth_userpass : String → C → Result C
  unfolding get_var
  auth_userpass conn_id client =
      let username = get_var "openbao_username" "OPENBAO_USERNAME" in
      let password = get_var "openbao_password" "OPENBAO_PASSWORD" in
      do
        conn ← api.connection conn_id
        let mount = if is_empty conn.schema then "userpass" else conn.schema
        if is_empty username || is_empty password
            then raise runtime_error
                "Userpass auth requires the Airflow Variables 'openbao_username' and 'openbao_password'"
            else api.login username password mount client

  auth_by : AuthMethod → String → C → Result C
  unfolding auth_token auth_userpass
  auth_by token conn_id client = auth_token client
  auth_by userpass conn_id client = auth_userpass conn_id client

  -- `_authenticate`, at a moment; a client of another method is not possible
  unfoldable pub authenticate : ℕ → String → Result C
  unfolding resolve_url resolve_auth_method auth_by method_text
  authenticate now conn_id = do
    url ← resolve_url conn_id
    client ← auth_by resolve_auth_method conn_id (api.new_client url)
    accepted ← api.is_authenticated now client
    if accepted
        then ok client
        else raise runtime_error (
            "OpenBao authentication failed using method '"
            <> method_text resolve_auth_method
            <> "' at '"
            <> url
            <> "'")

  -- `self._client = self._authenticate()`
  keep_client : Hook C → Result C → Result C × Hook C
  keep_client hook (ok client) = (ok client, record hook { client = some client })
  keep_client hook (err e) = (err e, hook)

  unfoldable pub renewed : ℕ → Hook C → Result C × Hook C
  unfolding keep_client
  renewed now hook = keep_client hook (authenticate now hook.openbao_conn_id)

  -- the kept client, of what the server answers for it
  unfoldable pub checked : ℕ → C → Hook C → Result Bool → Result C × Hook C
  unfolding renewed
  checked now client hook (ok true) = (ok client, hook)
  checked now client hook (ok false) = renewed now hook
  checked now client hook (err e) = (err e, hook)

  get_conn_from : ℕ → Option C → Hook C → Result C × Hook C
  unfolding renewed checked
  get_conn_from now none hook = renewed now hook
  get_conn_from now (some client) hook = checked now client hook (api.is_authenticated now client)

  -- `get_conn`
  unfoldable pub get_conn : ℕ → Hook C → Result C × Hook C
  unfolding get_conn_from
  get_conn now hook = get_conn_from now hook.client hook

  read_with : Value → Result C → Result Value
  unfolding as_dict get_item
  read_with path client = do
    response ← api.read_secret (← client) path
    outer ← as_dict (← get_item "data" (← as_dict response))
    get_item "data" outer

  -- `get_secret`
  unfoldable pub get_secret : ℕ → Value → Hook C → Result Value × Hook C
  unfolding read_with
  get_secret now path hook = let r = get_conn now hook in (read_with path r.0, r.1)
