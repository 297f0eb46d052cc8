-- ===== src/Alert/Key.antt =====
-- The map keys of package alert: `fmt.Sprintf("%d:%s", port, state)`, under one name for each file,
-- and the `"port:%d:%s"` of escalation_dispatcher.go.
use portwatch.Base.{
  ℤ, Text, text, format_int, format_int-injective, format_int-Without, cut_unique, ◌≡◌, ◌++◌, ◌∷◌,
  ap₂, ◌↔◌, arith, Bool, ◌&&◌, ◌==◌, text_eq, text_beq_iff, int_eq, eq_ℤ_iff,
}
use portwatch.Alert.Notification.{Notification}

unfoldable pub throttle_key : ℤ → Text → Text
throttle_key port state = format_int port ++ (b':' ∷ state)

abbrev pub notification_key : Notification → Text
notification_key n = throttle_key n.port n.state

-- Two notifications share a key exactly if they agree in the port and in the state, whatever bytes
-- the state holds.
pub throttle_key_iff :
    (p q : ℤ) (s t : Text) → (throttle_key p s ≡ throttle_key q t) ↔ ((p ≡ q) × (s ≡ t))
unfolding throttle_key
throttle_key_iff p q s t = (
  λ e.
      let c =
        cut_unique b':' (format_int p) (format_int q) s t (format_int-Without p)
          (format_int-Without q) e in
      (format_int-injective p q c.0, c.1),
  λ h. ap₂ (λ x y. format_int x ++ (b':' ∷ y)) h.0 h.1,
)

abbrev pub is_about : ℤ → Text → Notification → Bool
is_about port state n = (n.port == port) && (n.state == state)

-- To compare a notification's key with another is to compare its port and its state.
pub same_key :
    (port : ℤ) (state : Text) (n : Notification)
    → (notification_key n == throttle_key port state) ≡ is_about port state n
same_key port state n = ground (
  arith,
  text_beq_iff (notification_key n) (throttle_key port state),
  throttle_key_iff n.port port n.state state,
  text_beq_iff n.state state,
  eq_ℤ_iff n.port port,
)

abbrev pub escalation_key : Notification → Text
escalation_key n = text "port:" ++ throttle_key n.port n.state
