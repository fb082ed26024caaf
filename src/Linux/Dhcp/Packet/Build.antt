-- ===== src/Linux/Dhcp/Packet/Build.antt =====
-- src/linux/dhcp/packet.rs: the messages that the client and the server build.
use network_manager_rs.Common.{
  ℕ, ◌<◌, ◌≡◌, true, refl, ap, ◌∙◌, Option, none, some, List, [], ◌∷◌, ◌++◌, append-nil, Str, ok,
  length, length-append, replicate, keep, All, All-append, arith, Octets4, octets, IsU16, IsU32,
}
use network_manager_rs.Linux.Dhcp.Packet.{
  DhcpOption, DhcpPacket, DhcpMessageType, discover, request, release, type_as_u8, is_written,
  serialize_with_options, serialize, parse, option_message_type, option_hostname,
  option_requested_ip, option_server_id,
}
use network_manager_rs.Linux.Dhcp.Packet.Options.{IsShort}
use network_manager_rs.Linux.Dhcp.Packet.RoundTrip.{IsPacket, parse-serialize}

-- `Ipv4Addr::UNSPECIFIED`, and a field that is left at zero.
abbrev pub unspecified : Octets4
unspecified = record { a = 0; b = 0; c = 0; d = 0 }

-- `mac` is an array of six bytes, copied over the first six of the sixteen zeros.
unfoldable pub base_packet : ℕ → ℕ → ℕ → Octets4 → Octets4 → List ℕ → DhcpPacket
base_packet op xid flags ciaddr yiaddr mac = record {
  op = op;
  xid = xid;
  flags = flags;
  ciaddr = ciaddr;
  yiaddr = yiaddr;
  siaddr = unspecified;
  giaddr = unspecified;
  chaddr = mac ++ replicate 10 0;
  sname = replicate 64 0;
  file = replicate 128 0;
  options = [];
}

-- `if let Some(value) = value { options.push((code, bytes of value)) }`.
abbrev pub pushed {ℓ} : {A : Type ℓ} → ℕ → (A → List ℕ) → Option A → List DhcpOption
pushed code bytes none = []
pushed code bytes (some value) = (code, bytes value) ∷ []

abbrev pub type_option : DhcpMessageType → DhcpOption
type_option t = (option_message_type, type_as_u8 t ∷ [])

abbrev pub discover_options : Option Str → Option Octets4 → List DhcpOption
discover_options hostname requested_address =
    type_option discover
    ∷ (pushed option_hostname (λ s. s) hostname
        ++ pushed option_requested_ip octets requested_address)

unfoldable pub build_discover : ℕ → List ℕ → Option Str → Option Octets4 → List ℕ
build_discover xid mac hostname requested_address =
    serialize_with_options (base_packet 1 xid 32768 unspecified unspecified mac)
      (discover_options hostname requested_address)

abbrev pub request_options : Option Octets4 → Option Octets4 → Option Str → List DhcpOption
request_options requested_address server_identifier hostname =
    type_option request
    ∷ (pushed option_requested_ip octets requested_address
        ++ (pushed option_server_id octets server_identifier
            ++ pushed option_hostname (λ s. s) hostname))

unfoldable pub build_request : ℕ → List ℕ → Option Octets4 → Option Octets4 → Option Str → List ℕ
build_request xid mac requested_address server_identifier hostname =
    serialize_with_options (base_packet 1 xid 32768 unspecified unspecified mac)
      (request_options requested_address server_identifier hostname)

abbrev pub release_options : Octets4 → List DhcpOption
release_options server_identifier =
    type_option release ∷ (option_server_id, octets server_identifier) ∷ []

unfoldable pub build_release : ℕ → List ℕ → Octets4 → Octets4 → List ℕ
build_release xid mac address server_identifier =
    serialize_with_options (base_packet 1 xid 0 address unspecified mac)
      (release_options server_identifier)

unfoldable pub build_reply : DhcpMessageType → ℕ → List ℕ → Octets4 → List DhcpOption → List ℕ
build_reply message_type xid mac yiaddr extra_options =
    serialize (record (base_packet 2 xid 0 unspecified yiaddr mac) {
      options = type_option message_type ∷ extra_options;
    })

-- Options handed over beside the packet stand behind the packet's own.
serialize-options :
    (p : DhcpPacket) (extra : List DhcpOption)
    → serialize_with_options p extra ≡ serialize (record p { options = p.options ++ extra })
unfolding serialize serialize_with_options
serialize-options p extra = rw (append-nil (p.options ++ extra)) refl

with_options-IsPacket :
    (p : DhcpPacket) (options : List DhcpOption)
    → IsPacket p
    → All IsShort options
    → IsPacket (record p { options = options })
with_options-IsPacket p options h k = record {
  xid_fits = h.xid_fits;
  flags_fit = h.flags_fit;
  chaddr_size = h.chaddr_size;
  sname_size = h.sname_size;
  file_size = h.file_size;
  short = k;
}

base_packet-IsPacket :
    (op xid flags : ℕ) (ciaddr yiaddr : Octets4) (mac : List ℕ)
    → IsU32 xid
    → IsU16 flags
    → length mac ≡ 6
    → IsPacket (base_packet op xid flags ciaddr yiaddr mac)
unfolding base_packet
base_packet-IsPacket op xid flags ciaddr yiaddr mac h k l = record {
  xid_fits = h;
  flags_fit = k;
  chaddr_size = omega (arith, length-append mac (replicate 10 0));
  sname_size = refl;
  file_size = refl;
  short = tt;
}

-- What a message made of a base packet and of options is read back as.
base_parsed :
    (op xid flags : ℕ) (ciaddr yiaddr : Octets4) (mac : List ℕ) (options : List DhcpOption)
    → IsU32 xid
    → IsU16 flags
    → length mac ≡ 6
    → All IsShort options
    → parse (serialize (record (base_packet op xid flags ciaddr yiaddr mac) { options = options }))
      ≡ ok (record (base_packet op xid flags ciaddr yiaddr mac) {
        options = keep is_written options;
      })
base_parsed op xid flags ciaddr yiaddr mac options h k l m =
    parse-serialize _ (
      with_options-IsPacket _ options (base_packet-IsPacket op xid flags ciaddr yiaddr mac h k l) m)

-- A value, where there is one, is shorter than 256 bytes.
abbrev pub ShortValue {ℓ} : {A : Type ℓ} → (A → List ℕ) → Option A → Type 0
ShortValue bytes none = Unit
ShortValue bytes (some v) = length (bytes v) < 256

short_octets : (o : Option Octets4) → ShortValue octets o
short_octets none = tt
short_octets (some a) = omega arith

module _ {A : Type 0} (code : ℕ) (bytes : A → List ℕ)
    (w : (v : List ℕ) → is_written (code, v) ≡ true) where
  pushed-IsShort : (o : Option A) → ShortValue bytes o → All IsShort (pushed code bytes o)
  pushed-IsShort none h = tt
  pushed-IsShort (some v) h = (h, tt)

  keep-pushed :
      (o : Option A) (rest : List DhcpOption)
      → keep is_written (pushed code bytes o ++ rest) ≡ pushed code bytes o ++ keep is_written rest
  keep-pushed none rest = refl
  keep-pushed (some v) rest = rw (w (bytes v)) refl

  pushed_kept : (o : Option A) → keep is_written (pushed code bytes o) ≡ pushed code bytes o
  pushed_kept none = refl
  pushed_kept (some v) = rw (w (bytes v)) refl

module _ (xid : ℕ) (mac : List ℕ) (h : IsU32 xid) (l : length mac ≡ 6) where
  serialize-options_parsed :
      (op flags : ℕ) (ciaddr yiaddr : Octets4) (options : List DhcpOption)
      → IsU16 flags
      → All IsShort options
      → parse (serialize_with_options (base_packet op xid flags ciaddr yiaddr mac) options)
        ≡ ok (record (base_packet op xid flags ciaddr yiaddr mac) {
          options = keep is_written options;
        })
  unfolding base_packet
  serialize-options_parsed op flags ciaddr yiaddr options k m =
      ap parse (serialize-options (base_packet op xid flags ciaddr yiaddr mac) options)
      ∙ base_parsed op xid flags ciaddr yiaddr mac options h k l m

  -- A DISCOVER is read back as the broadcast boot request that was built: the transaction id, the
  -- hardware address, and the message type, hostname and requested address among the options, where
  -- the hostname is shorter than 256 bytes.
  pub parse-build_discover :
      (hostname : Option Str) (address : Option Octets4)
      → ShortValue (λ s. s) hostname
      → parse (build_discover xid mac hostname address)
        ≡ ok (record (base_packet 1 xid 32768 unspecified unspecified mac) {
          options = discover_options hostname address;
        })
  unfolding build_discover base_packet
  parse-build_discover hostname address s =
      serialize-options_parsed 1 32768 unspecified unspecified (discover_options hostname address)
        (omega arith)
        (
          omega arith,
          All-append IsShort (pushed option_hostname (λ s. s) hostname) _
              (pushed-IsShort option_hostname (λ s. s) (λ v. refl) hostname s)
              (pushed-IsShort option_requested_ip octets (λ v. refl) address
                (short_octets address)),
        )
      ∙ ap (λ o. ok (record (base_packet 1 xid 32768 unspecified unspecified mac) { options = o }))
          kept
    where
      kept : keep is_written (discover_options hostname address) ≡ discover_options hostname address
      kept = ap (◌∷◌ (type_option discover)) (
          keep-pushed option_hostname (λ s. s) (λ v. refl) hostname
            (pushed option_requested_ip octets address)
          ∙ ap (◌++◌ (pushed option_hostname (λ s. s) hostname))
              (pushed_kept option_requested_ip octets (λ v. refl) address))

  -- A REQUEST is read back as the broadcast boot request that was built: the transaction id, the
  -- hardware address, and the message type, requested address, server identifier and hostname among
  -- the options, where the hostname is shorter than 256 bytes.
  pub parse-build_request :
      (address server : Option Octets4) (hostname : Option Str)
      → ShortValue (λ s. s) hostname
      → parse (build_request xid mac address server hostname)
        ≡ ok (record (base_packet 1 xid 32768 unspecified unspecified mac) {
          options = request_options address server hostname;
        })
  unfolding build_request base_packet
  parse-build_request address server hostname s =
      serialize-options_parsed 1 32768 unspecified unspecified
        (request_options address server hostname) (omega arith)
        (
          omega arith,
          All-append IsShort (pushed option_requested_ip octets address) _
              (pushed-IsShort option_requested_ip octets (λ v. refl) address (short_octets address))
              (All-append IsShort (pushed option_server_id octets server) _
                (pushed-IsShort option_server_id octets (λ v. refl) server (short_octets server))
                (pushed-IsShort option_hostname (λ s. s) (λ v. refl) hostname s)),
        )
      ∙ ap (λ o. ok (record (base_packet 1 xid 32768 unspecified unspecified mac) { options = o }))
          kept
    where
      kept :
          keep is_written (request_options address server hostname)
          ≡ request_options address server hostname
      kept = ap (◌∷◌ (type_option request)) (
          keep-pushed option_requested_ip octets (λ v. refl) address _
          ∙ ap (◌++◌ (pushed option_requested_ip octets address)) (
              keep-pushed option_server_id octets (λ v. refl) server _
              ∙ ap (◌++◌ (pushed option_server_id octets server))
                  (pushed_kept option_hostname (λ s. s) (λ v. refl) hostname)))

  -- A RELEASE is read back as the unicast boot request that was built: the transaction id, the
  -- address given up, the hardware address, and the message type and server identifier as options.
  pub parse-build_release :
      (address server : Octets4)
      → parse (build_release xid mac address server)
        ≡ ok (record (base_packet 1 xid 0 address unspecified mac) {
          options = release_options server;
        })
  unfolding build_release base_packet
  parse-build_release address server =
      serialize-options_parsed 1 0 address unspecified (release_options server) (omega arith)
        (omega arith, (omega arith, tt))

  pub parse-build_reply :
      (t : DhcpMessageType) (yiaddr : Octets4) (extra : List DhcpOption)
      → All IsShort extra
      → parse (build_reply t xid mac yiaddr extra)
        ≡ ok (record (base_packet 2 xid 0 unspecified yiaddr mac) {
          options = type_option t ∷ keep is_written extra;
        })
  unfolding build_reply base_packet
  parse-build_reply t yiaddr extra s =
      base_parsed 2 xid 0 unspecified yiaddr mac (type_option t ∷ extra) h (omega arith) l
        (omega arith, s)
