-- ===== src/DeviceBox/DeviceBoxMain/Ready.antt =====
-- DeviceBox/DeviceBoxMain.cpp: from a message with a configuration to the message that the device is
-- ready.
use ip_cam_box.Prelude.{
  string_eq, ℕ, ◌+◌, String, Bool, true, false, Option, some, List, [], ◌∷◌, ◌++◌, ◌≡◌, refl, ap,
  ◌∙◌, subst, sym, Outcome, ok, ◌>>=◌, length, when_some, return_if, arith,
}
use ip_cam_box.Server.ControlServer.Protocol.{client_config_reply_message, client_ready_message}
use ip_cam_box.DeviceBox.Client.{
  Client, ServerProtobuf, client_ready, send_ready, on_message, parse_message, handle_parsed,
  on_config_reply, call_back, send_message, load_config as load_task, update_config as update_task,
}
use ip_cam_box.DeviceBox.Controller.{
  Controller, ClientConfig, finished, callback, load, clear_config, load_config, load_first,
  update_config, run_post,
}
use ip_cam_box.DeviceBox.DeviceConfig.{is_empty_config, load_config as load_device_config}
use ip_cam_box.DeviceBox.Controller.Shutdowns.{AllIdle}
use ip_cam_box.DeviceBox.Controller.Reload.{load_first-IsStarted, emptied}
use ip_cam_box.DeviceBox.DeviceBoxMain.{
  Device, of_client, Happening, task_runs, post_runs, dropbox_ends, happen, happens, run_tasks,
  run_task, run_posts, call_bound,
}
use ip_cam_box.DeviceBox.DeviceBoxMain.Reconnect.{bound_last, call_number_last, happens-append}

-- The client has written that the device is ready, and waits for the next message.
abbrev pub told_ready : Client → Client
told_ready c = record c {
  reading = c.reading + 1;
  written = c.written ++ ((client_ready_message, client_ready) ∷ []);
}

-- The controller when the callback that it posted last has been called.
abbrev called_last : ℕ → Controller → Controller
called_last n k = record k { posted = []; called = k.called ++ (n ∷ []) }

post_runs-called :
    (dir_make_tmp : ℕ → Option String) (ndebug : Bool) (k : Controller) (d : Device)
    → k.posted ≡ finished (callback (length d.bound)) ∷ []
    → happens dir_make_tmp ndebug false
        (post_runs ∷ [])
        (record (bound_last (of_client send_ready) d) { controller = k })
      ≡ ok (record (bound_last (of_client send_ready) d) {
        client = send_message client_ready_message client_ready d.client;
        controller = called_last (length d.bound) k;
      })
unfolding happens happen run_posts run_post call_bound call_back
post_runs-called dir_make_tmp ndebug k d posted =
    let e : Device = record (bound_last (of_client send_ready) d) {
      controller = called_last (length d.bound) k;
    } in
    subst
      (λ ps.
        ◌≡◌ {A = Outcome Device}
          (ok (
            run_posts dir_make_tmp ndebug false ps
              (record (bound_last (of_client send_ready) d) { controller = k })))
          (ok (call_bound false (of_client send_ready) e)))
      (sym posted) (ap ok (call_number_last false d.bound (of_client send_ready) e refl))

module _ (dir_make_tmp : ℕ → Option String) (ndebug : Bool) (proto : ServerProtobuf) (body : String)
    (config : ClientConfig) (d : Device) where
  reply-posts :
      proto.client_config_reply body ≡ some config
      → d.client.tasks ≡ []
      → on_message proto ndebug client_config_reply_message body false d.client
        ≡ ok (record d.client {
          reading = d.client.reading + 1;
          tasks = load_task config send_ready ∷ [];
        })
  unfolding on_message parse_message handle_parsed on_config_reply return_if when_some
  reply-posts parsed empty = rw (parsed, when_some) (ground (arith, empty))

  abbrev pub number : ℕ
  number = length d.bound

  abbrev after_task : Controller → Device
  after_task k = record (bound_last (of_client send_ready) d) {
    client = record d.client { reading = d.client.reading + 1; tasks = [] };
    controller = k;
  }

  -- The end, from a controller that has posted the callback.
  abbrev ready : Controller → Device
  ready k = record (bound_last (of_client send_ready) d) {
    client =
        send_message client_ready_message client_ready
          (record d.client { reading = d.client.reading + 1; tasks = [] });
    controller = called_last number k;
  }

  reply-task :
      is_empty_config d.controller.config ≡ true
      → happens dir_make_tmp ndebug false (task_runs ∷ []) (record d {
        client = record d.client {
          reading = d.client.reading + 1;
          tasks = load_task config send_ready ∷ [];
        };
      })
        ≡ ok (after_task (load_first dir_make_tmp config number d.controller))
  unfolding happens happen run_tasks run_task load_config
  reply-task none = ground (arith, none)

  told-ready : d.client.tasks ≡ [] → (k : Controller) → (ready k).client ≡ told_ready d.client
  unfolding send_message
  told-ready empty k = ground (arith, empty)

  abbrev before_task : Device
  before_task = record d { client = record d.client { reading = d.client.reading + 1; tasks = [] } }

  -- A device box without a configuration gets one: it reads the message, the controller loads the
  -- configuration and calls the callback, no assertion fails, and the client has written, as the one new
  -- message, that the device is ready, and waits for the next message; no task is left. Before, no
  -- task waited and there were no sources.
  pub config_reply-ready :
      proto.client_config_reply body ≡ some config
      → d.client.tasks ≡ []
      → d.controller.posted ≡ []
      → d.controller.handlers ≡ []
      → is_empty_config d.controller.config ≡ true
      → (e : Device) × ((do
        c ← on_message proto ndebug client_config_reply_message body false d.client
        happens dir_make_tmp ndebug false (task_runs ∷ post_runs ∷ []) (record d { client = c }))
          ≡ ok e)
        × (e.client ≡ told_ready d.client)
        × (e.controller.config
            ≡ load_device_config dir_make_tmp config.sources config.dropbox d.controller.config)
        × (e.controller.posted ≡ [])
        × AllIdle e.controller.handlers
  config_reply-ready parsed empty unposted no_sources none =
      let k = load_first dir_make_tmp config number d.controller in
      let loaded =
        load_first-IsStarted dir_make_tmp config number d.controller no_sources unposted in
      let go = happens dir_make_tmp ndebug false in
      let d1 : Device = record d {
        client = record d.client {
          reading = d.client.reading + 1;
          tasks = load_task config send_ready ∷ [];
        };
      } in
      (
        ready k,
        ap (λ o. o >>= λ c. go (task_runs ∷ post_runs ∷ []) (record d { client = c }))
              (reply-posts parsed empty)
            ∙ happens-append dir_make_tmp ndebug false (task_runs ∷ []) (post_runs ∷ []) d1
            ∙ ap (λ o. o >>= go (post_runs ∷ [])) (reply-task none)
            ∙ post_runs-called dir_make_tmp ndebug k before_task loaded.1,
        told-ready empty k,
        loaded.0,
        refl,
        loaded.2,
      )

  -- The sources are gone: the Dropbox client is reset and the configuration is loaded.
  abbrev pub reloading : List Happening
  reloading = post_runs ∷ dropbox_ends (clear_config (load config number)) ∷ post_runs ∷ []

  loaded_again : Controller → Controller
  loaded_again k = load_first dir_make_tmp config number (emptied config number k)
