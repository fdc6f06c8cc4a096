-- ===== src/Secrets/Laws.antt =====
-- Which client, which method and which address the hook uses.
use batch_ingestion_service.Prelude.{
  ℕ, String, ◌≡◌, inl, inr, refl, Bool, false, true, some, none, Option, arith, Bool-cases,
}
use batch_ingestion_service.Py.Exc.{Result, Exc, ok, err, >>=-eq-ok}
use batch_ingestion_service.Py.Value.{Value}
use batch_ingestion_service.Secrets.{
  Api, Hook, get_conn, get_conn_from, renewed, checked, keep_client, authenticate, resolve_url,
  resolve_auth_method, auth_by, get_secret,
}

module _ {C : Type 0} (api : Api C) where
  -- what authentication returns, the server accepts at that moment
  authenticate-is_authenticated :
      (now : ℕ) (conn_id : String) (client : C)
      → authenticate api now conn_id ≡ ok client
      → api.is_authenticated now client ≡ ok true
  unfolding authenticate
  authenticate-is_authenticated now conn_id client h =
      let (url, _, after_url) = >>=-eq-ok (resolve_url api conn_id) _ h in
      let (c, _, last) =
        >>=-eq-ok (auth_by api (resolve_auth_method api) conn_id (api.new_client url)) _
          after_url in
      let (accepted, known, returned) = >>=-eq-ok (api.is_authenticated now c) _ last in
      elim (Bool-cases accepted) [ inl on ↦ ground arith | inr off ↦ ground arith ]

  renewed_sound :
      (now : ℕ) (hook : Hook C) (client : C)
      → (renewed api now hook).0 ≡ ok client
      → (api.is_authenticated now client ≡ ok true)
        × ((renewed api now hook).1.client ≡ some client)
  unfolding renewed
  renewed_sound now hook client h = kept (authenticate api now hook.openbao_conn_id) refl h
    where
      kept :
          (r : Result C)
          → authenticate api now hook.openbao_conn_id ≡ r
          → (keep_client api hook r).0 ≡ ok client
          → (api.is_authenticated now client ≡ ok true)
            × ((keep_client api hook r).1.client ≡ some client)
      kept (ok c) e k =
          let same : c ≡ client = cc in
          (authenticate-is_authenticated now hook.openbao_conn_id client (rw (← same) e), rw same)
      kept (err x) e k = absurd (cc)

  checked_sound :
      (now : ℕ) (c : C) (hook : Hook C) (client : C) (answer : Result Bool)
      → api.is_authenticated now c ≡ answer
      → hook.client ≡ some c
      → (checked api now c hook answer).0 ≡ ok client
      → (api.is_authenticated now client ≡ ok true)
        × ((checked api now c hook answer).1.client ≡ some client)
  unfolding checked
  checked_sound now c hook client (ok true) e k h = ground arith
  checked_sound now c hook client (ok false) e k h = renewed_sound now hook client h
  checked_sound now c hook client (err x) e k h = absurd (cc)

  get_conn_from_sound :
      (now : ℕ) (o : Option C) (hook : Hook C) (client : C)
      → hook.client ≡ o
      → (get_conn_from api now o hook).0 ≡ ok client
      → (api.is_authenticated now client ≡ ok true)
        × ((get_conn_from api now o hook).1.client ≡ some client)
  unfolding get_conn_from
  get_conn_from_sound now none hook client e h = renewed_sound now hook client h
  get_conn_from_sound now (some c) hook client e h =
      checked_sound now c hook client (api.is_authenticated now c) refl e h

  -- Every client that `get_conn` returns is authenticated at that moment, and is the one it keeps.
  pub get_conn_sound :
      (now : ℕ) (hook : Hook C) (client : C)
      → (get_conn api now hook).0 ≡ ok client
      → (api.is_authenticated now client ≡ ok true)
        × ((get_conn api now hook).1.client ≡ some client)
  get_conn_sound now hook client h =
      (unfold get_conn in get_conn_from_sound now hook.client hook client refl h)

  -- A kept client that is still authenticated is used again, with no new login.
  get_conn_cached :
      (now : ℕ) (hook : Hook C) (client : C)
      → hook.client ≡ some client
      → api.is_authenticated now client ≡ ok true
      → get_conn api now hook ≡ (ok client, hook)
  unfolding get_conn
  get_conn_cached now hook client h k = rw (h, get_conn_from) (rw k)

  -- The client of one call is the client of the next, with no new login, while the server accepts it.
  pub get_conn_again :
      (now later : ℕ) (hook : Hook C) (client : C)
      → (get_conn api now hook).0 ≡ ok client
      → api.is_authenticated later client ≡ ok true
      → get_conn api later (get_conn api now hook).1 ≡ (ok client, (get_conn api now hook).1)
  get_conn_again now later hook client h k =
      get_conn_cached later (get_conn api now hook).1 client (get_conn_sound now hook client h).1 k

  keep_client_failed :
      (hook : Hook C) (r : Result C) (e : Exc)
      → (keep_client api hook r).0 ≡ err e
      → (keep_client api hook r).1 ≡ hook
  unfolding keep_client
  keep_client_failed hook (ok c) e h = cc
  keep_client_failed hook (err x) e h = refl

  renewed_failed :
      (now : ℕ) (hook : Hook C) (e : Exc)
      → (renewed api now hook).0 ≡ err e
      → (renewed api now hook).1 ≡ hook
  unfolding renewed
  renewed_failed now hook e h =
      keep_client_failed hook (authenticate api now hook.openbao_conn_id) e h

  checked_failed :
      (now : ℕ) (c : C) (hook : Hook C) (answer : Result Bool) (e : Exc)
      → (checked api now c hook answer).0 ≡ err e
      → (checked api now c hook answer).1 ≡ hook
  unfolding checked
  checked_failed now c hook (ok true) e h = cc
  checked_failed now c hook (ok false) e h = renewed_failed now hook e h
  checked_failed now c hook (err x) e h = refl

  get_conn_from_failed :
      (now : ℕ) (o : Option C) (hook : Hook C) (e : Exc)
      → (get_conn_from api now o hook).0 ≡ err e
      → (get_conn_from api now o hook).1 ≡ hook
  unfolding get_conn_from
  get_conn_from_failed now none hook e h = renewed_failed now hook e h
  get_conn_from_failed now (some c) hook e h =
      checked_failed now c hook (api.is_authenticated now c) e h

  get_conn_failed :
      (now : ℕ) (hook : Hook C) (e : Exc)
      → (get_conn api now hook).0 ≡ err e
      → (get_conn api now hook).1 ≡ hook
  get_conn_failed now hook e h = (unfold get_conn in get_conn_from_failed now hook.client hook e h)

  -- When no client can be had, `get_secret` raises the same error and the hook stays as it was.
  get_secret_failed_login :
      (now : ℕ) (hook : Hook C) (path : Value) (e : Exc)
      → (get_conn api now hook).0 ≡ err e
      → get_secret api now path hook ≡ (err e, hook)
  unfolding get_secret
  get_secret_failed_login now hook path e h = ground (arith, get_conn_failed now hook e h)
