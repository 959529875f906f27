-- ===== src/DeviceBox/DropboxClient/Handles.antt =====
-- DeviceBox/Dropbox.cpp: the handle that the `init` of an action returns.
use ip_cam_box.Prelude.{
  ℕ, nat_eq, String, Bool, true, false, Option, none, some, List, ◌≡◌, sym, ap, when_some,
}
use mathlib.Core.Option.{none-ne-some, some-injective}
use ip_cam_box.DeviceBox.DropboxClient.Actions.{Transfer, upload_init, init, json_transfer}

-- The handle of a transfer is the one that `curl_easy_init` gave.
started_curl :
    (easy : Option ℕ) (token : String) (body : ℕ × List String → Option Transfer) (t : Transfer)
    → ((curl : ℕ) (headers : List String) (u : Transfer)
        → body (curl, headers) ≡ some u
        → u.curl ≡ curl)
    → when_some (init easy token) none body ≡ some t
    → easy ≡ some t.curl
unfolding init when_some
started_curl none token body t same h = absurd (none-ne-some t h)
started_curl (some curl) token body t same h = ap some (sym (same curl _ t h))

pub json_started :
    (easy : Option ℕ) (token url body : String) (t : Transfer)
    → when_some
        (init easy token)
        none
        (λ started. let (curl, headers) = started in some (json_transfer curl headers url body))
      ≡ some t
    → easy ≡ some t.curl
json_started easy token url body t =
    started_curl easy token _ t
      (λ c hs u k. sym (ap (λ v. v.curl) (some-injective (json_transfer c hs url body) u k)))

pub upload_started :
    (easy : Option ℕ) (opened : Bool) (token dst src : String) (t : Transfer)
    → upload_init easy opened token dst src ≡ some t
    → easy ≡ some t.curl
unfolding upload_init
upload_started easy true token dst src t =
    started_curl easy token _ t (λ c hs u k. sym (ap (λ v. v.curl) (some-injective _ u k)))
upload_started easy false token dst src t =
    started_curl easy token _ t (λ c hs u k. absurd (none-ne-some u k))
