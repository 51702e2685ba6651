-- ===== src/Examples/ServerExamples.antt =====
-- Requests to the control API, a token file, and a store with a codec that hides nothing.
use open_socks.Prelude.{
  ℕ, ◌≡◌, refl, true, false, Option, none, some, [], ◌∷◌, ◌++◌, take, drop, take_append,
  drop_append, length, Bytes, codes, ok, pos,
}
use open_socks.SpeedJob.{SpeedState, fresh_job}
use open_socks.Settings.{is_empty}
use open_socks.Controller.Setup.{Tools}
use open_socks.Server.{get, Payload, HttpRequest}
use open_socks.Server.Token.{
  TokenFile, load_or_create_mobile_token, Random, Stable, load_or_create_mobile_token-Stable,
}
use open_socks.Server.Handlers.{Measures, Daemon}
use open_socks.Vault.{Codec, Vault, Envelope, missing, save_credentials}
use open_socks.Vault.RoundTrip
use open_socks.Vault.RoundTrip.{Laws, Kept, save_credentials-Kept}
use open_socks.Examples.RoutingExamples.{some_world}
use open_socks.Examples.ApiExamples.{some_credentials}

abbrev some_payload : Payload
some_payload = record {
  login_input = none;
  line_id = pos 7;
  mode = [];
  history_id = [];
  settings_input = none;
  job_input = none;
  server_id = none;
}

abbrev lines_request : HttpRequest
lines_request = record {
  method = get;
  path = codes "/lines";
  authorization = [];
  log_lines = [];
  payload = some_payload;
}

abbrev some_random : Bytes
some_random = codes "0123456789abcdef0123456789abcdef"

abbrev some_token_file : TokenFile
some_token_file = record {
  content = none;
  dir_works = true;
  writable = true;
  left = none;
  chmod_works = true;
  random = some some_random;
}

abbrev some_speed : SpeedState
some_speed = record {
  job = fresh_job (codes "ookla") (codes "1") (pos 4) 0;
  stream_limit = pos 4;
  progress_bytes = 0;
  progress_updated = 0;
}

abbrev some_daemon : Daemon ℕ
some_daemon = record { world = some_world; speed = some_speed; token_file = some_token_file }

abbrev some_tools : Tools
some_tools = record {
  nft = true;
  ss_redir = true;
  update_works = false;
  install_redir_works = false;
  ss_local = true;
  install_local_works = false;
}

abbrev some_measures : Measures
some_measures = record {
  region = ok tt;
  servers = ok [];
  test = λ _. ok tt;
  cn_servers = ok [];
  cn_test = λ _. ok tt;
  helper_starts = λ _. 1;
  run_reports = λ _. [];
}

random-32 : Random (some some_random)
unfolding Random
random-32 = refl

load_or_create_mobile_token-Stable_example :
    Stable some_token_file (load_or_create_mobile_token some_token_file)
load_or_create_mobile_token-Stable_example =
    load_or_create_mobile_token-Stable some_token_file random-32

abbrev tail_of : Bytes → Option Bytes
tail_of [] = none
tail_of (_ ∷ b) = some b

abbrev cut : Bytes → Option Envelope
cut [] = none
cut (n ∷ b) = some (record { version = pos 1; nonce = take n b; ciphertext = drop n b })

abbrev plain_codec : Codec
plain_codec = record {
  nonce_size = 12;
  seal = λ _ _ plain _. 0 ∷ plain;
  open' = λ _ _ sealed _. tail_of sealed;
  base64 = λ b. b;
  from_base64 = λ b. some b;
  show_envelope = λ e. length e.nonce ∷ e.nonce ++ e.ciphertext;
  read_envelope = cut;
  show_credentials = λ k. k.email;
  read_credentials = λ _. some some_credentials;
}

plain_codec-Laws : Laws plain_codec
plain_codec-Laws = record {
  open-seal = λ _ _ _ _. refl;
  from_base64-base64 = λ _. refl;
  base64-full = λ b h. h;
  seal-full = λ _ _ _ _. refl;
  read-envelope = λ a b. rw (take_append a b, drop_append a b) refl;
}

abbrev empty_vault : Vault
empty_vault = record {
  key_file = missing;
  credentials_file = missing;
  directory_works = true;
  key_writable = true;
  credentials_writable = true;
  random_key = some some_random;
  random_nonce = some (codes "0123456789ab");
}

random_bytes : (n : ℕ) (b : Bytes) → length b ≡ n → is_empty b ≡ false → RoundTrip.Random n (some b)
unfolding RoundTrip.Random
random_bytes n b h k = (h, k)

save_credentials-Kept_example :
    Kept plain_codec some_credentials empty_vault
      (save_credentials plain_codec (some some_credentials) empty_vault)
save_credentials-Kept_example =
    save_credentials-Kept plain_codec plain_codec-Laws some_credentials empty_vault refl
      (random_bytes 32 some_random refl refl) (random_bytes 12 (codes "0123456789ab") refl refl)
