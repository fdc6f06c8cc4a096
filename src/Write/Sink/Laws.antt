-- ===== src/Write/Sink/Laws.antt =====
-- What a write and a copy of a sink do to the files, and what they raise.
use batch_ingestion_service.Prelude.{
  String, ◌≡◌, refl, ap, ◌∙◌, ◌≢◌, Bool, true, false, ◌&&◌, [], ◌∷◌, if◌then◌else◌,
}
use batch_ingestion_service.Py.Exc.{Exc, Result, ok, err}
use batch_ingestion_service.Py.Exec.{
  Exec, pure, lift, ◌>>◌, catch, handled, Keeps, bind-Keeps, >>=-step, catch-step,
}
use batch_ingestion_service.Py.Value.{Value, none_val, Dict, truthy, get_or, as_text, method_dict}
use batch_ingestion_service.Config.Kinds.{WriteAdapterType}
use batch_ingestion_service.Write.Path.{build_write_path}
use batch_ingestion_service.Write.Hadoop.{Hadoop, mode_value}
use batch_ingestion_service.Write.Schema.{validate_schema, pre_write}
use batch_ingestion_service.Write.Sink.{
  Sink, set_all, put_user, set_user, kerberos, login, configure_hdfs, configure, post_write,
  on_error, reraised, writer_of, write_body, write, copied, copy_body, copy_from, s3a_settings,
}

-- The calls that configure and report leave the files alone.
pub record KeepsFiles {S D T F : Type 0} (h : Hadoop S D T) (files : S → F) : Type 0 where
  pub by_env : (k v : String) → Keeps files (h.set_env k v)
  pub by_conf : (k : String) (v : Value) → Keeps files (h.set_conf k v)
  pub by_login : (p k : Value) → Keeps files (h.login_from_keytab p k)
  pub by_mode : (m : String) → Keeps files (h.check_mode m)
  pub by_print : (s : String) → Keeps files (h.print s)

module _ {S D T F : Type 0} (h : Hadoop S D T) (files : S → F) where
  -- How the files change when a frame is saved once, after its schema was checked: with the sink's
  -- writer, at the path of the run.
  pub record Saved (a : Sink T) (df : D) (before after : F) : Type 0 where
    pub path : String
    pub frame : D
    pub state : S
    pub valid : Bool
    pub at_path : build_write_path a.sink_config ≡ ok path
    pub checked : validate_schema h a.schema df ≡ ok valid
    pub prepared : pre_write h a.schema df ≡ ok frame
    pub unchanged : files state ≡ before
    pub succeeded : (h.save (writer_of h a) path frame state).0 ≡ ok tt
    pub result : after ≡ files (h.save (writer_of h a) path frame state).1

  pub Saved-along :
      {a : Sink T} {df : D} {x x' y y' : F} → Saved a df x y → x ≡ x' → y' ≡ y → Saved a df x' y'
  Saved-along w p q = record {
    path = w.path;
    frame = w.frame;
    state = w.state;
    valid = w.valid;
    at_path = w.at_path;
    checked = w.checked;
    prepared = w.prepared;
    unchanged = w.unchanged ∙ p;
    succeeded = w.succeeded;
    result = q ∙ w.result;
  }

  -- How the files change when a path is copied once, over what was there and without deletion of the
  -- source, and Hadoop reports success.
  pub record Copied (source_path : Value) (dest_path : String) (before after : F) : Type 0 where
    pub state : S
    pub unchanged : files state ≡ before
    pub succeeded : (h.copy source_path dest_path false true state).0 ≡ ok true
    pub result : after ≡ files (h.copy source_path dest_path false true state).1

  pub Copied-along :
      {p : Value} {dest : String} {x x' y y' : F}
      → Copied p dest x y
      → x ≡ x'
      → y' ≡ y
      → Copied p dest x' y'
  Copied-along w p q = record {
    state = w.state;
    unchanged = w.unchanged ∙ p;
    succeeded = w.succeeded;
    result = q ∙ w.result;
  }

module _ {S D T F : Type 0} (h : Hadoop S D T) (files : S → F) (k : KeepsFiles h files) where
  pub set_all-Keeps : (d : Dict Value) → Keeps files (set_all h d)
  unfolding set_all
  set_all-Keeps [] = λ s. refl
  set_all-Keeps ((key, v) ∷ d) =
      bind-Keeps files (h.set_conf key v) _ (k.by_conf key v) (λ _. set_all-Keeps d)

  put_user-Keeps : (v : Value) → Keeps files (put_user h v)
  unfolding put_user
  put_user-Keeps v =
      bind-Keeps files (lift (as_text v)) _ (λ s. refl) (λ name. k.by_env "HADOOP_USER_NAME" name)

  kerberos-Keeps : (p t : Value) → Keeps files (kerberos h p t)
  unfolding kerberos
  kerberos-Keeps p t =
      bind-Keeps files (h.set_conf _ _) _ (k.by_conf _ _)
        (λ _. bind-Keeps files (h.set_conf _ _) _ (k.by_conf _ _) (λ _. k.by_login p t))

  when-Keeps : (b : Bool) (m : Exec S Unit) → Keeps files m → Keeps files (if b then m else pure tt)
  when-Keeps true m p = p
  when-Keeps false m p = λ s. refl

  set_user-Keeps : (v : Value) → Keeps files (set_user h v)
  unfolding set_user
  set_user-Keeps v = when-Keeps (truthy v) (put_user h v) (put_user-Keeps v)

  login-Keeps : (p t : Value) → Keeps files (login h p t)
  unfolding login
  login-Keeps p t = when-Keeps (truthy p && truthy t) (kerberos h p t) (kerberos-Keeps p t)

  pub configure_hdfs-Keeps : (d : Dict Value) → Keeps files (configure_hdfs h d)
  unfolding configure_hdfs
  configure_hdfs-Keeps d =
      bind-Keeps files (set_user h (get_or d "hdfs_user" none_val)) _
        (set_user-Keeps (get_or d "hdfs_user" none_val))
        (λ _.
          login-Keeps (get_or d "kerberos_principal" none_val)
            (get_or d "kerberos_keytab" none_val))

  pub configure-Keeps : (a : Sink T) → Keeps files (configure h a)
  unfolding configure
  configure-Keeps a =
      bind-Keeps files (lift (method_dict a.credentials)) _ (λ s. refl) (by_type a.write_type)
    where
      by_type :
          (t : WriteAdapterType) (d : Dict Value)
          → Keeps files (elim t [
            | WriteAdapterType.hadoop ↦ configure_hdfs h d
            | WriteAdapterType.s3 ↦ set_all h (s3a_settings d)
          ])
      by_type WriteAdapterType.hadoop d = configure_hdfs-Keeps d
      by_type WriteAdapterType.s3 d = set_all-Keeps (s3a_settings d)

  post_write-Keeps : (a : Sink T) → Keeps files (post_write h a)
  unfolding post_write
  post_write-Keeps a =
      bind-Keeps files (lift (build_write_path a.sink_config)) _ (λ s. refl) (λ p. k.by_print _)

  on_error-Keeps : (a : Sink T) (e : Exc) → Keeps files (on_error h a e)
  unfolding on_error
  on_error-Keeps a e =
      bind-Keeps files (lift (build_write_path a.sink_config)) _ (λ s. refl) (λ p. k.by_print _)

  -- A write that returns has saved once, and nothing else changed the files.
  pub write_saves :
      (a : Sink T) (df : D) (s : S)
      → (write h a df s).0 ≡ ok tt
      → Saved h files a df (files s) (files (write h a df s).1)
  unfolding write reraised write_body
  write_saves a df s returned =
      let (whole, body_ok) = catch-step (write_body h a df) (on_error h a) s returned in
      let (_, _, e1, h1) = >>=-step (configure h a) _ s body_ok in
      let s1 = (configure h a s).1 in
      let (b, valid, e2, h2) = >>=-step (lift (validate_schema h a.schema df)) _ s1 h1 in
      let (frame, made, e3, h3) = >>=-step (lift (pre_write h a.schema df)) _ s1 h2 in
      let (path, at_path, e4, h4) = >>=-step (lift (build_write_path a.sink_config)) _ s1 h3 in
      let (_, _, e5, h5) = >>=-step (h.check_mode (mode_value a.write_mode)) _ s1 h4 in
      let t = (h.check_mode (mode_value a.write_mode) s1).1 in
      let (_, saved, e6, h6) = >>=-step (h.save (writer_of h a) path frame) _ t h5 in
      record {
        path = path;
        frame = frame;
        state = t;
        valid = b;
        at_path = at_path;
        checked = valid;
        prepared = made;
        unchanged = k.by_mode (mode_value a.write_mode) s1 ∙ configure-Keeps a s;
        succeeded = saved;
        result =
            ap (λ r. files r.1) (whole ∙ (e1 ∙ (e2 ∙ (e3 ∙ (e4 ∙ (e5 ∙ e6))))))
            ∙ post_write-Keeps a (h.save (writer_of h a) path frame t).1;
      }

  -- the handler raises, and leaves the files alone
  reraised-Keeps : (a : Sink T) (e : Exc) → Keeps files (reraised h a e {A = Unit})
  unfolding reraised
  reraised-Keeps a e = bind-Keeps files (on_error h a e) _ (on_error-Keeps a e) (λ _ s. refl)

  catch-Keeps :
      (a : Sink T) (m : Exec S Unit) → Keeps files m → Keeps files (catch m (λ e. reraised h a e))
  catch-Keeps a m p s = of_result (m s).0 (m s).1 (p s)
    where
      of_result :
          (r : Result (Unit {0})) (t : S)
          → files t ≡ files s
          → files (handled r (λ e. reraised h a e) t).1 ≡ files s
      of_result (ok u) t q = q
      of_result (err e) t q = reraised-Keeps a e t ∙ q

  -- When the calls that configure and report leave the files alone, a frame whose schema is refused
  -- changes no file, and the write raises.
  pub write_refused :
      (a : Sink T) (df : D) (e : Exc) (s : S)
      → validate_schema h a.schema df ≡ err e
      → (files (write h a df s).1 ≡ files s) × ((write h a df s).0 ≢ ok tt)
  unfolding write write_body
  write_refused a df e s bad = (catch-Keeps a (write_body h a df) body s, raises)
    where
      body : Keeps files (write_body h a df)
      body = bind-Keeps files (configure h a) _ (configure-Keeps a) (λ _ t. rw bad refl)

      raises : (write h a df s).0 ≢ ok tt
      raises returned = let checked = (write_saves a df s returned).checked in cc

  -- A copy that returns has copied once, and nothing else changed the files.
  pub copy_from_copies :
      (a : Sink T) (source_path : Value) (dest_path : String) (s : S)
      → (copy_from h a source_path dest_path s).0 ≡ ok tt
      → Copied h files source_path dest_path
          (files s)
          (files (copy_from h a source_path dest_path s).1)
  unfolding copy_from reraised copy_body copied
  copy_from_copies a source_path dest_path s returned =
      let (whole, body_ok) =
        catch-step (copy_body h a source_path dest_path) (on_error h a) s returned in
      let (_, _, e1, h1) = >>=-step (configure h a) _ s body_ok in
      let t = (configure h a s).1 in
      let (done, answered, e2, h2) = >>=-step (h.copy source_path dest_path false true) _ t h1 in
      let u = (h.copy source_path dest_path false true t).1 in
      let (_, good, e3, h3) = >>=-step (lift (copied h source_path dest_path done)) _ u h2 in
      record {
        state = t;
        unchanged = configure-Keeps a s;
        succeeded = answered ∙ ap ok (copied-ok done good);
        result = ap (λ r. files r.1) (whole ∙ (e1 ∙ (e2 ∙ e3))) ∙ post_write-Keeps a u;
      }
    where
      copied-ok : (b : Bool) → copied h source_path dest_path b ≡ ok tt → b ≡ true
      copied-ok true p = refl
      copied-ok false p = cc

module _ {S D T : Type 0} (h : Hadoop S D T) where
  on_error_returns :
      (a : Sink T) (e : Exc) (path : String) (s : S)
      → build_write_path a.sink_config ≡ ok path
      → ((line : String) (t : S) → (h.print line t).0 ≡ ok tt)
      → (on_error h a e s).0 ≡ ok tt
  unfolding on_error
  on_error_returns a e path s built prints = rw built (prints _ s)

  -- When the path of the run can be built and its report is printed, a write raises exactly what its
  -- steps raised, and returns when they returned.
  pub write_reraises :
      (a : Sink T) (df : D) (path : String) (s : S)
      → build_write_path a.sink_config ≡ ok path
      → ((line : String) (t : S) → (h.print line t).0 ≡ ok tt)
      → (write h a df s).0 ≡ (write_body h a df s).0
  unfolding write reraised
  write_reraises a df path s built prints =
      of_result (write_body h a df s).0 (write_body h a df s).1
    where
      of_result :
          (r : Result (Unit {0})) (t : S)
          → (handled r (λ e. on_error h a e >> lift (err e)) t).0 ≡ r
      of_result (ok u) t = refl
      of_result (err e) t = rw (on_error_returns a e path t built prints) refl
