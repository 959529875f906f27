-- ===== src/Server/ControlServer/SecureContext.antt =====
-- `ServerSecureContext` of Server/ControlServer/Server.cpp, its renewal, and the connections that it lets
-- in.
use ip_cam_box.Prelude.{
  ℕ, String, Bool, true, false, not, Option, none, some, return_if, if◌then◌else◌,
}
use ip_cam_box.Server.ControlServer.ServerSession.{State, create}

-- What the constructor calls of `asio::ssl::context` before the certificate.
pub data ContextCall : Type 0 where
  set_options use_tmp_dh set_verify_mode : ContextCall

-- The context has a private key and a chain of certificates, each by the text it was read from; `waiting`
-- says whether the timer of the renewal has a wait.
pub record Context : Type 0 where
  pub valid : Bool
  pub private_key : Option String
  pub chain : Option String
  pub waiting : Bool

-- The answers of asio: which call, and which text, is an error.
pub record Asio : Type 0 where
  pub call_error : ContextCall → Bool
  pub key_error : String → Bool
  pub chain_error : String → Bool

module _ (asio : Asio) where
  unfoldable pub update_certificate : String → Context → Bool × Context
  update_certificate certificate c =
      return_if (asio.key_error certificate) (false, record c { valid = false })
        (let keyed : Context = record c { private_key = some certificate } in
          return_if (asio.chain_error certificate) (false, record keyed { valid = false })
            (true, record keyed { chain = some certificate }))

  abbrev made : Context
  made = record { valid = false; private_key = none; chain = none; waiting = false }

  -- `use_tls` is CONTROL_USE_TLS.
  unfoldable pub construct_context : Bool → String → Context
  construct_context use_tls certificate = return_if (asio.call_error set_options) made (
      return_if (asio.call_error use_tmp_dh) made (
        return_if (asio.call_error set_verify_mode) made (
          let (updated, c) =
            if use_tls then update_certificate certificate made else (true, made) in
          return_if (not updated) c (record c { valid = true }))))

  unfoldable pub schedule_update_certificate : Context → Context
  schedule_update_certificate c = record c { waiting = true }

  -- The constructor of `Server`.
  unfoldable pub construct_server : Bool → String → Context
  construct_server use_tls certificate =
      schedule_update_certificate (construct_context use_tls certificate)

  -- The handler of the wait, with the certificate that the configuration then has.
  unfoldable pub on_update_timer : Bool → String → Context → Context
  on_update_timer error certificate c =
      let over : Context = record c { waiting = false } in
      return_if error over (schedule_update_certificate (update_certificate certificate over).1)

-- `id` is the number of the session that the connection would make.
unfoldable pub on_new_connection : Context → ℕ → State → State
on_new_connection c id st = return_if (not c.valid) st (create id st)
