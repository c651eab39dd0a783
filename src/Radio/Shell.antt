-- ===== src/Radio/Shell.antt =====
-- The selected radio, and the commands `comms uhf status` and `comms uhf connect` of
-- radio-uhf/src/radio_uhf.c: what they print, by the format strings, and what they return.
use Prim.Native.String.{String}
use kfsw_modules.Prelude.{
  ℕ, Bool, true, false, Option, none, some, List, [], ◌∷◌, ◌++◌, if◌then◌else◌,
}
use kfsw_modules.Shell.{Line, line, flag_word, text, word, unsigned, code, Argument}
use kfsw_modules.Errno.{Ret, ok, err}
use kfsw_modules.Radio.Platform.{Platform}
use kfsw_modules.Radio.Link.{Config, Link, Env}
use kfsw_modules.Radio.Handshake.{connect}
use kfsw_modules.Radio.Control.{get}
use kfsw_modules.Radio.Control
use kfsw_modules.Radio.Info.{Implementation, Info, LinkState, link_unknown, get_info}

-- kfsw_radio_uhf_holybro, with CONFIG_KFSW_RADIO_UHF_EXPECTED_SERIAL_BAUD
abbrev pub holybro : ℕ → Implementation
holybro baud = record {
  name = b'h' ∷ b'o' ∷ b'l' ∷ b'y' ∷ b'b' ∷ b'r' ∷ b'o' ∷ b'-' ∷ b's' ∷ b'i' ∷ b'k' ∷ [];
  expected_hardware =
      b'R' ∷ b'F' ∷ b'D' ∷ b' ' ∷ b'S' ∷ b'i' ∷ b'K' ∷ b' ' ∷ b'2' ∷ b'.' ∷ b'0' ∷ b' ' ∷ b'o'
      ∷ b'n' ∷ b' ' ∷ b'H' ∷ b'M' ∷ b'-' ∷ b'T' ∷ b'R' ∷ b'P' ∷ [];
  expected_serial_baud = baud;
  expected_hardware_flow_control = false;
}

-- kfsw_radio_uhf_link_state_name
abbrev pub link_state_name : LinkState → String
link_state_name link_unknown = "unknown"

abbrev flag_unsigned : Bool → Argument
flag_unsigned b = unsigned (if b then 1 else 0)

identity_lines : Info → List Line
identity_lines info =
    line "UHF radio" []
    ∷ line "enabled: yes" []
    ∷ line "implementation: %s" (text info.implementation ∷ [])
    ∷ line "expected hardware: %s" (text info.expected_hardware ∷ [])
    ∷ line "configuration source: build-time expectation, not hardware readback" []
    ∷ line "expected serial: %u 8N1" (unsigned info.expected_serial_baud ∷ [])
    ∷ line "expected flow control: %s"
        (flag_word info.expected_hardware_flow_control "hardware" "none" ∷ [])
    ∷ line "hardware status: %s"
        (flag_word info.hardware_status_available "available" "unavailable" ∷ [])
    ∷ line "RF link: %s" (word (link_state_name info.link_state) ∷ [])
    ∷ []

-- The lines of a build with CONFIG_KFSW_RADIO_UHF_CRYPTO.
crypto_lines : Option Control.Info → List Line
crypto_lines none = []
crypto_lines (some c) =
    line "protection: %s, TX %s, RX %s" (
      flag_word c.enabled "enabled" "disabled"
      ∷ flag_word c.encrypt_tx "encrypted" "plain"
      ∷ flag_word c.encrypt_rx "required" "plain"
      ∷ [])
    ∷ line "key: %s, sessions TX/RX: %u/%u, last error: %d" (
        flag_word c.key_set "set" "missing"
        ∷ flag_unsigned c.tx_ready
        ∷ flag_unsigned c.rx_ready
        ∷ code c.last_error
        ∷ [])
    ∷ line "authenticated: %u, rejected: %u, replays: %u"
        (unsigned c.authenticated ∷ unsigned c.rejected ∷ unsigned c.replays ∷ [])
    ∷ []

status_lines : Bool → Link → Ret × Option Info → List Line × Ret
unfolding identity_lines crypto_lines
status_lines crypto l (ok, some info) =
    (identity_lines info ++ (if crypto then crypto_lines (get true l) else []), ok)
status_lines crypto l (ok, none) = ([], ok)
status_lines crypto l (err e, _) =
    (line "UHF status unavailable (%d)" (code (err e) ∷ []) ∷ [], err e)

-- cmd_uhf_status, on whether the build has the link's protection
unfoldable pub uhf_status : Bool → Implementation → Link → List Line × Ret
unfolding status_lines
uhf_status crypto i l = status_lines crypto l (get_info i true)

-- cmd_uhf_connect
unfoldable pub uhf_connect : Config → Platform → Env → Link → Link × List Line × Ret
uhf_connect c p env l =
    let (l', result) = connect c p env l in
    (l', line "Radio session request: %d" (code result ∷ []) ∷ [], result)
