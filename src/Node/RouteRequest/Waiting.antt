-- ===== src/Node/RouteRequest/Waiting.antt =====
-- The root while an answer to a request waits: the part of its state that says which copy of the request
-- is to be answered.
use ajou_etri_project.Base.{
  ℕ, zero, suc, ◌+◌, ◌<◌, ◌≤◌, ◌≡◌, refl, ◌∙◌, Bool, some, List, [], ◌∷◌, ◌==◌, get_elem?, length,
  arith, Option-elim, if◌then◌else◌,
}
use ajou_etri_project.Msg.{Addr}
use ajou_etri_project.Route
use ajou_etri_project.Nms
use ajou_etri_project.Node.{Node, Tmp, nms_record}
use ajou_etri_project.Node.Make.{take_ext}
use ajou_etri_project.Node.RouteRequest.{record_path}

-- What of the state the choice between copies reads.
pub record View : Type 0 where
  pub address : Addr
  pub logging : Bool
  pub settings : Nms.Config
  pub routes : Route.Table
  pub waiting : List Tmp

abbrev pub view : Node → View
view n = record {
  address = n.my_mac;
  logging = n.nms_log_on;
  settings = n.config;
  routes = n.rt_t;
  waiting = n.tmp_preq;
}

nms_record-view :
    (a b : Addr) (r_ch state is_hello : ℕ) (n : Node)
    → view (nms_record a b r_ch state is_hello n) ≡ view n
nms_record-view a b r_ch state is_hello n =
    Option-elim (λ (m : Node). view m ≡ view n) (Nms.find n.nms_t a) refl (λ i. refl)

get_elem-some :
    {A : Type 0} (l : List A) (i : ℕ) → i < length l → (a : A) × (get_elem? l i ≡ some a)
get_elem-some [] i h = absurd (omega arith)
get_elem-some (x ∷ l) zero h = (x, refl)
get_elem-some (x ∷ l) (suc i) h = get_elem-some l i (omega arith)

-- The path of a request is entered in the table for the management system only.
pub record_path-view :
    (r_ch k i : ℕ) (ext : List Addr) (n : Node)
    → i + k < length ext
    → (m : Node) × (record_path r_ch k i ext n ≡ some m) × (view m ≡ view n)
unfolding record_path
record_path-view r_ch zero i ext n h = (n, refl, refl)
record_path-view r_ch (suc k) i ext n h =
    let (a, e) = get_elem-some ext i (omega arith) in
    let (b, f) = get_elem-some ext (i + 1) (omega arith) in
    let u = nms_record a b (if i == 0 then r_ch else 0) 1 0 n in
    let v = nms_record b a 0 1 0 u in
    let (m, run, same) = record_path-view r_ch k (i + 1) ext v (omega arith) in
    (
      m,
      rw e (rw f run),
      same ∙ nms_record-view b a 0 1 0 u ∙ nms_record-view a b (if i == 0 then r_ch else 0) 1 0 n,
    )

pub take_ext-some :
    (k : ℕ) (ext : List Addr) → k ≤ length ext → (l : List Addr) × (take_ext k ext ≡ some l)
unfolding take_ext
take_ext-some zero ext h = ([], refl)
take_ext-some (suc k) [] h = absurd (omega arith)
take_ext-some (suc k) (a ∷ ext) h =
    let (l, e) = take_ext-some k ext (omega arith) in (a ∷ l, rw e refl)
