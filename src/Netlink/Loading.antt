-- ===== src/Netlink/Loading.antt =====
-- Loading and unloading the kernel module: kajou_init and kajou_exit of wsm/Netlink/kajou.c. What the
-- kernel answers is a parameter.
use ajou_etri_project.Base.{
  ◌≡◌, refl, Bool, true, false, not, if◌then◌else◌, ℤ, negsuc, is_negative,
}

-- What the module holds in the kernel.
pub record Held : Type 0 where
  pub netlink_socket : Bool
  pub hook : Bool

abbrev pub nothing : Held
nothing = record { netlink_socket = false; hook = false }

-- `creates` says whether netlink_kernel_create succeeds; `ret` is what nf_register_hook returns.
unfoldable pub kajou_init : (creates : Bool) → (ret : ℤ) → Held → Held × ℤ
kajou_init creates ret h =
    if not creates
    then (h, negsuc 9)
    else (record { netlink_socket = true; hook = not (is_negative ret) }, ret)

unfoldable pub kajou_exit : Held → Held
kajou_exit h = record { netlink_socket = false; hook = false }

-- The kernel unloads a module whose init returns a negative number, without its exit.
abbrev pub load : (creates : Bool) → (ret : ℤ) → Held
load creates ret = (kajou_init creates ret nothing).0

-- A module whose loading fails leaves its netlink socket in the kernel exactly where the socket could be
-- made and the hook not be registered.
pub kajou_init-leaves :
    (creates : Bool) (ret : ℤ)
    → is_negative (kajou_init creates ret nothing).1 ≡ true
    → (kajou_init creates ret nothing).0 ≡ record { netlink_socket = creates; hook = false }
unfolding kajou_init
kajou_init-leaves true ret e = rw e refl
kajou_init-leaves false ret e = refl
