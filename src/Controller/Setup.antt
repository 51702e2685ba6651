-- ===== src/Controller/Setup.antt =====
-- setupNetwork, registerByDevice, the picker list with its fallback to the cached directory, and
-- restartEngine of openwrt/opensocks/src/controller.go. What the system's tools answer is a record.
use open_socks.Prelude.{
  Bool, false, not, ◌&&◌, Option, none, some, List, [], ◌∷◌, if◌then◌else◌, Bytes, codes, bytes_eq,
  Result, ok, err, negsuc,
}
use open_socks.Lines.{Line, PickerSettings, list_lines}
use open_socks.Settings.{Disk, Settings}
use open_socks.Session.Engine.{is_running}
use open_socks.Controller.{
  ApiError, is_api_error_code, Failure, api, automatic_login, Client, World, Outside,
  refresh_settings, keep_session, with_account, get_lines_authenticated,
}
use open_socks.Controller.Connecting.{Done, set_option, connect, disconnect}

-- Whether the programs are there, and whether opkg can update and install.
pub record Tools : Type 0 where
  pub nft : Bool
  pub ss_redir : Bool
  pub update_works : Bool
  pub install_redir_works : Bool
  pub ss_local : Bool
  pub install_local_works : Bool

pub data SetupError : Type 0 where
  nft_missing update_failed install_failed helper_failed : SetupError
  not_connected : Failure → SetupError

pub data ListError : Type 0 where
  list_unavailable : ListError
  list_failed : Failure → ListError

-- isAPIErrorCode(err, 20001), which looks through the error of an automatic login.
unfoldable pub has_unknown_session : Failure → Bool
has_unknown_session (api e) = is_api_error_code e 20001
has_unknown_session (automatic_login e) = is_api_error_code e 20001
has_unknown_session _ = false

-- The checks before anything is changed.
unfoldable pub missing_tool : Tools → Option SetupError
missing_tool t =
    if not t.nft
    then some nft_missing
    else if not t.ss_redir && not t.update_works
    then some update_failed
    else if not t.ss_redir && not t.install_redir_works
    then some install_failed
    else if not t.ss_local && not t.install_local_works
    then some helper_failed
    else none

unfoldable pub setup_mode : Bytes → Bytes
unfolding bytes_eq
setup_mode mode = if bytes_eq mode (codes "global") then mode else codes "smart"

-- The four settings.
unfoldable pub setup_options : Bytes → Disk → Disk
unfolding set_option
setup_options mode d = set_option (codes "auto_connect") (codes "1") (
    set_option (codes "mode") mode (
      set_option (codes "tun") (codes "0")
        (set_option (codes "engine_binary") (codes "/usr/bin/ss-redir") d)))

module _ {N : Type 0} (c : Client N) (o : Outside) where
  -- The world that setupNetwork connects in.
  unfoldable pub prepared : Bytes → World N → World N
  unfolding setup_options refresh_settings disconnect is_running
  prepared mode w0 =
      let w =
        refresh_settings c
          (record w0 { store = record w0.store { disk = setup_options mode w0.store.disk } }) in
      if is_running o.answers w.engine then disconnect c o w else w

  abbrev pub after_setup_connect : Bytes → Done N → Result SetupError Bytes × World N
  after_setup_connect mode (err f, w) = (err (not_connected f), w)
  after_setup_connect mode (ok _, w) = (ok mode, w)

  unfoldable pub setup_checked :
      Option SetupError → Bytes → World N → Result SetupError Bytes × World N
  unfolding prepared connect
  setup_checked (some e) mode w = (err e, w)
  setup_checked none mode w = after_setup_connect mode (connect c o (negsuc 0) (prepared mode w))

  -- A success gives the mode that is in use.
  unfoldable pub setup_network : Tools → Bytes → World N → Result SetupError Bytes × World N
  unfolding missing_tool setup_mode setup_checked
  setup_network t mode w = setup_checked (missing_tool t) (setup_mode mode) w

  abbrev pub after_registration :
      World N → Result ApiError Bytes × N → Result Failure Bytes × World N
  after_registration w (err e, net) = (err (api e), record w { net = net })
  after_registration w (ok token, net) =
      (ok token, keep_session c token (record w { net = net; store = with_account c net w.store }))

  unfoldable pub register_by_device : World N → Result Failure Bytes × World N
  unfolding keep_session
  register_by_device w = after_registration w (c.register w.net)

  abbrev pub picker : Settings → PickerSettings
  picker s = record {
    free_only = s.free_only;
    region = s.region;
    exclude_regions = s.exclude_regions;
  }

  abbrev pub cached_list : Settings → World N → List Line → Result ListError (List Line) × World N
  cached_list cfg w [] = (err list_unavailable, w)
  cached_list cfg w (l ∷ ls) = (ok (list_lines w.store.account (picker cfg) (l ∷ ls)), w)

  abbrev pub after_directory :
      Settings → Result Failure (List Line) × World N → Result ListError (List Line) × World N
  after_directory cfg (ok ls, w) = (ok (list_lines w.store.account (picker cfg) ls), w)
  after_directory cfg (err f, w) =
      if has_unknown_session f then cached_list cfg w w.lines else (err (list_failed f), w)

  -- listLines in its default order, with the directory that it asks for.
  unfoldable pub list_for_picker : World N → Result ListError (List Line) × World N
  unfolding get_lines_authenticated has_unknown_session list_lines
  list_for_picker w = after_directory w.cfg (get_lines_authenticated c w)

  unfoldable pub restart_engine : World N → World N
  unfolding refresh_settings connect
  restart_engine w = (connect c o (negsuc 0) (refresh_settings c w)).1
