-- ===== src/Ssh/Dial.antt =====
-- internal/adapter/ssh/executor.go. Packages net and golang.org/x/crypto/ssh are a parameter.
use proxmox_k3s.Prelude.{
  ℕ, zero, suc, ◌+◌, ◌-◌, ◌/◌, ◌%◌, [], ◌∷◌, ◌++◌, Option, none, some, true, false, ltb, eqb,
  if◌then◌else◌, length,
}
use proxmox_k3s.Prelude.Int.{ℤ, pos, is_zero}
use proxmox_k3s.Prelude.Text.{Text, codes, is_empty}
use proxmox_k3s.Prelude.Decimal.{decimal, decimal_ℤ}
use proxmox_k3s.Prelude.Result.{Result, ok, err, map_err, Exec, pure, lift, wrapping, ◌>>=◌}
use proxmox_k3s.Ssh.{Executor}
use proxmox_k3s.Ssh.Retry.{Clock, retry}

pub record Network (S : Type 0) : Type 1 where
  pub Key : Type 0
  pub Conn : Type 0
  pub Client : Type 0
  pub Session : Type 0
  pub clock : Clock S
  -- os.ReadFile, ssh.ParsePrivateKey, and the verb %q
  pub read_file : Text → Exec S Text Text
  pub parse_key : Text → Result Text Key
  pub quote : Text → Text
  -- net.DialTimeout with so many seconds, and ssh.NewClientConn with ssh.NewClient
  pub dial : ℕ → Text → Exec S Text Conn
  pub handshake : Key → Text → Text → Conn → Exec S Text Client
  pub new_session : Client → Exec S Text Session
  pub close_conn : Conn → S → S
  pub close_client : Client → S → S
  pub close_session : Session → S → S
  -- Session.Run: stdin and the command; stdout, stderr and the error
  pub session_run : Session → Text → Text → S → (Text × Text × Option Text) × S
  -- Session.Run with a writer for both streams
  pub session_stream : Session → Text → (Text → Text) → S → Option Text × S

-- The length in bytes of a text in UTF-8.
byte_length : Text → ℕ
byte_length [] = 0
byte_length (c ∷ s) =
    let n = byte_length s in
    if ltb c 0x80
    then n + 1
    else if ltb c 0x800
    then n + 2
    else if ltb c 0x10000
    then n + 3
    else n + 4

emit_octal : ℕ → ℕ → Text → Text
emit_octal zero n out = out
emit_octal (suc fuel) n out = elim (ltb n 8) [
  | true ↦ (48 + n) ∷ out
  | false ↦ emit_octal fuel (n / 8) ((48 + n % 8) ∷ out)
]

zeros : ℕ → Text → Text
zeros zero s = s
zeros (suc n) s = b'0' ∷ zeros n s

-- The verb %04o
unfoldable pub octal4 : ℕ → Text
unfolding emit_octal zeros
octal4 n = let digits = emit_octal (suc n) n [] in zeros (4 - length digits) digits

-- The parts of a path before and behind its last slash.
last_slash : Text → Option (Text × Text)
last_slash [] = none
last_slash (c ∷ s) = step c (last_slash s) s
  where
    step : ℕ → Option (Text × Text) → Text → Option (Text × Text)
    step c (some (dir, name)) s = some (c ∷ dir, name)
    step c none s = if eqb c b'/' then some ([], s) else none

-- What the goroutine of Upload writes.
unfoldable pub scp_input : ℕ → Text → Text → Text
unfolding octal4 byte_length
scp_input mode content name =
    codes "C"
    ++ (octal4 mode
        ++ (b' '
            ∷ (decimal (byte_length content)
                ++ (b' ' ∷ (name ++ (b'\n' ∷ (content ++ (0 ∷ []))))))))

-- `fmt.Errorf("SSH connect to %s: %w (last error: %v)", …)`, or the context's error alone
unfoldable pub connect_failed : Text → Option Text → Text → Text
connect_failed host none c = c
connect_failed host (some e) c =
    codes "SSH connect to "
    ++ (host ++ (codes ": " ++ (c ++ (codes " (last error: " ++ (e ++ codes ")")))))

module _ {S : Type 0} (N : Network S) (rounds : ℕ) where
  open N use {Key, Conn, Client, Session}

  -- Executor; the path of the key is not read again.
  pub record Access : Type 0 where
    pub user : Text
    pub port : ℤ
    pub key : Key

  -- NewExecutor
  unfoldable pub new_access : Text → Text → ℤ → Exec S Text Access
  new_access path user port = do
    text ←
        wrapping (λ e. codes "reading SSH key " ++ (N.quote path ++ (codes ": " ++ e)))
          (N.read_file path)
    key ← lift (map_err (λ e. codes "parsing SSH private key: " ++ e) (N.parse_key text))
    pure (record {
      user = if is_empty user then codes "ubuntu" else user;
      port = if is_zero port then pos 22 else port;
      key = key;
    })

  module _ (A : Access) where
    address : Text → Text
    address host = host ++ (b':' ∷ decimal_ℤ A.port)

    -- The connection is closed where the handshake fails.
    after_handshake : Conn → Result Text Client → S → Result Text Client × S
    after_handshake conn (ok client) s = (ok client, s)
    after_handshake conn (err e) s = (err e, N.close_conn conn s)

    shaken : Text → Result Text Conn → Exec S Text Client
    unfolding after_handshake address
    shaken host (err e) s = (err e, s)
    shaken host (ok conn) s =
        let (r, s') = N.handshake A.key A.user (address host) conn s in after_handshake conn r s'

    -- One round of dialWithRetry.
    unfoldable pub connect : Text → Exec S Text Client
    unfolding shaken address
    connect host s = let (r, s') = N.dial 5 (address host) s in shaken host r s'

    unfoldable pub dial_with_retry : Text → Exec S Text Client
    unfolding retry connect connect_failed
    dial_with_retry host = retry N.clock (connect host) (connect_failed host) rounds none

    -- One round of WaitSSH.
    probed : Result Text Conn → Exec S Text Unit
    probed (err e) s = (err e, s)
    probed (ok conn) s = (ok tt, N.close_conn conn s)

    probe : Text → Exec S Text Unit
    unfolding probed address
    probe host s = let (r, s') = N.dial 3 (address host) s in probed r s'

    unfoldable pub wait_ssh : Text → Exec S Text Unit
    unfolding retry probe
    wait_ssh host = retry N.clock (probe host) (λ last c. c) rounds none

    module _ {B : Type 0} (failing : Text → B) (work : Session → S → B × S) where
      -- The deferred calls close the session, then the client.
      in_session : Text → Client → Result Text Session → S → B × S
      in_session host client (err e) s = (
        failing (codes "creating SSH session on " ++ (host ++ (codes ": " ++ e))),
        N.close_client client s,
      )
      in_session host client (ok sess) s =
          let (b, s') = work sess s in (b, N.close_client client (N.close_session sess s'))

      with_client : Text → Result Text Client → S → B × S
      unfolding in_session
      with_client host (err e) s = (failing e, s)
      with_client host (ok client) s =
          let (r, s') = N.new_session client s in in_session host client r s'

      unfoldable pub on_host : Text → S → B × S
      unfolding with_client dial_with_retry
      on_host host s = let (r, s') = dial_with_retry host s in with_client host r s'

    run_in : Text → Session → S → (Text × Option Text) × S
    run_in cmd sess s = let (r, s') = N.session_run sess [] cmd s in ((r.0, r.2), s')

    upload_in : Text → Text → Session → S → Option Text × S
    upload_in input dir sess s =
        let (r, s') = N.session_run sess input (codes "scp -qt " ++ dir) s in (r.2, s')

    -- A path without a slash, where the code panics, has an error; no caller has one.
    upload_to : Option (Text × Text) → Text → Text → ℕ → S → Option Text × S
    unfolding upload_in on_host scp_input
    upload_to none host content mode s = (some (codes "slice bounds out of range [:-1]"), s)
    upload_to (some (dir, name)) host content mode s =
        on_host some (upload_in (scp_input mode content name) dir) host s

    -- Run, RunStream and Upload
    unfoldable pub ssh_executor : Executor S
    unfolding run_in upload_to last_slash on_host
    ssh_executor = record {
      run = λ host cmd s. on_host (λ e. ([], some e)) (run_in cmd) host s;
      run_stream =
          λ host cmd out s. on_host some (λ sess t. N.session_stream sess cmd out t) host s;
      upload = λ host path content mode s. upload_to (last_slash path) host content mode s;
    }

  -- NewExecutor, with the calls of the executor.
  unfoldable pub new_executor : Text → Text → ℤ → Exec S Text (Executor S)
  unfolding new_access ssh_executor
  new_executor path user port = do A ← new_access path user port; pure (ssh_executor A)
