-- ===== src/Identity.antt =====
-- `FloatingIPForAttachment` of pkg/vswitch/slot.go: the address that stands for an attachment.
use connector.Base.{ℕ, ◌+◌, ◌*◌, ◌^◌, ◌≤◌, ◌<◌, ◌≢◌, ◌⊎◌, arith, u32}

abbrev pub max_ports : ℕ
max_ports = 4096

abbrev pub floating_slot_bits : ℕ
floating_slot_bits = 12

unfoldable pub floating_ip_for_attachment : ℕ → ℕ → ℕ → ℕ
floating_ip_for_attachment base slot_id generation =
    u32 (u32 (base + u32 (generation * 2 ^ floating_slot_bits)) + slot_id)

-- The window check of `validateBase`: base + span - 1 fits in 32 bits.
abbrev pub FitsWindow : ℕ → ℕ → Type 0
FitsWindow base bits = base + 2 ^ bits * 4096 ≤ 4294967296

-- In a validated window no arithmetic wraps, the address lies in the window, and two attachments
-- that differ in the slot or in the generation have different addresses.
pub floating_ip_distinct :
    (base bits i g j h : ℕ)
    → FitsWindow base bits
    → i < max_ports
    → j < max_ports
    → g < 2 ^ bits
    → h < 2 ^ bits
    → (i ≢ j) ⊎ (g ≢ h)
    → (base ≤ floating_ip_for_attachment base i g)
      × (floating_ip_for_attachment base i g < base + 2 ^ bits * 4096)
      × (floating_ip_for_attachment base i g ≢ floating_ip_for_attachment base j h)
unfolding floating_ip_for_attachment
floating_ip_distinct base bits i g j h fits hi hj hg hh ne = (omega arith, omega arith, omega arith)

pub floating_ip-window :
    (base bits i g : ℕ)
    → FitsWindow base bits
    → i < max_ports
    → g < 2 ^ bits
    → (base ≤ floating_ip_for_attachment base i g)
      × (floating_ip_for_attachment base i g < base + 2 ^ bits * 4096)
unfolding floating_ip_for_attachment
floating_ip-window base bits i g fits hi hg = (omega arith, omega arith)
