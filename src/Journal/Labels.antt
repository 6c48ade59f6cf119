-- ===== src/Journal/Labels.antt =====
-- The labels in front of what is authenticated or digested.
use msgriver.Common.{ℕ, List, [], ◌∷◌, ◌++◌}

abbrev control_journal : List ℕ
control_journal =
    b'm' ∷ b's' ∷ b'g' ∷ b'r' ∷ b'i' ∷ b'v' ∷ b'e' ∷ b'r' ∷ b'/' ∷ b'c' ∷ b'o' ∷ b'n' ∷ b't' ∷ b'r'
    ∷ b'o' ∷ b'l' ∷ b'-' ∷ b'j' ∷ b'o' ∷ b'u' ∷ b'r' ∷ b'n' ∷ b'a' ∷ b'l' ∷ b'-' ∷ []

abbrev version_1 : List ℕ
version_1 = b'/' ∷ b'v' ∷ b'1' ∷ []

-- "msgriver/control-journal-header/v1".
abbrev pub header_auth_label : List ℕ
header_auth_label = control_journal ++ ((b'h' ∷ b'e' ∷ b'a' ∷ b'd' ∷ b'e' ∷ b'r' ∷ []) ++ version_1)

-- "msgriver/control-journal-record/v1".
abbrev pub record_label : List ℕ
record_label = control_journal ++ ((b'r' ∷ b'e' ∷ b'c' ∷ b'o' ∷ b'r' ∷ b'd' ∷ []) ++ version_1)

-- "msgriver/control-journal-record-auth/v1".
abbrev pub auth_label : List ℕ
auth_label =
    control_journal
    ++ ((b'r' ∷ b'e' ∷ b'c' ∷ b'o' ∷ b'r' ∷ b'd' ∷ b'-' ∷ b'a' ∷ b'u' ∷ b't' ∷ b'h' ∷ [])
        ++ version_1)

-- "msgriver/recovery-ring/v1".
abbrev pub recovery_ring_domain : List ℕ
recovery_ring_domain =
    (b'm' ∷ b's' ∷ b'g' ∷ b'r' ∷ b'i' ∷ b'v' ∷ b'e' ∷ b'r' ∷ b'/' ∷ b'r' ∷ b'e' ∷ b'c' ∷ b'o' ∷ b'v'
      ∷ b'e' ∷ b'r' ∷ b'y' ∷ b'-' ∷ b'r' ∷ b'i' ∷ b'n' ∷ b'g' ∷ [])
    ++ version_1

-- "msgriver/active-state-pointer/v1".
abbrev pub active_state_pointer_domain : List ℕ
active_state_pointer_domain =
    (b'm' ∷ b's' ∷ b'g' ∷ b'r' ∷ b'i' ∷ b'v' ∷ b'e' ∷ b'r' ∷ b'/' ∷ b'a' ∷ b'c' ∷ b't' ∷ b'i' ∷ b'v'
      ∷ b'e' ∷ b'-' ∷ b's' ∷ b't' ∷ b'a' ∷ b't' ∷ b'e' ∷ b'-' ∷ b'p' ∷ b'o' ∷ b'i' ∷ b'n' ∷ b't'
      ∷ b'e' ∷ b'r' ∷ [])
    ++ version_1

-- "msgriver/resource-incarnation-namespace/v1".
abbrev pub resource_incarnation_namespace_label : List ℕ
resource_incarnation_namespace_label =
    (b'm' ∷ b's' ∷ b'g' ∷ b'r' ∷ b'i' ∷ b'v' ∷ b'e' ∷ b'r' ∷ b'/' ∷ b'r' ∷ b'e' ∷ b's' ∷ b'o' ∷ b'u'
      ∷ b'r' ∷ b'c' ∷ b'e' ∷ b'-' ∷ b'i' ∷ b'n' ∷ b'c' ∷ b'a' ∷ b'r' ∷ b'n' ∷ b'a' ∷ b't' ∷ b'i'
      ∷ b'o' ∷ b'n' ∷ b'-' ∷ b'n' ∷ b'a' ∷ b'm' ∷ b'e' ∷ b's' ∷ b'p' ∷ b'a' ∷ b'c' ∷ b'e' ∷ [])
    ++ version_1

-- "msgriver/state-mac-key/v1".
abbrev pub state_mac_key_domain : List ℕ
state_mac_key_domain =
    (b'm' ∷ b's' ∷ b'g' ∷ b'r' ∷ b'i' ∷ b'v' ∷ b'e' ∷ b'r' ∷ b'/' ∷ b's' ∷ b't' ∷ b'a' ∷ b't' ∷ b'e'
      ∷ b'-' ∷ b'm' ∷ b'a' ∷ b'c' ∷ b'-' ∷ b'k' ∷ b'e' ∷ b'y' ∷ [])
    ++ version_1
