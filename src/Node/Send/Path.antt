-- ===== src/Node/Send/Path.antt =====
-- A route request collects the addresses that it passes, and the reply goes back along them.
use ajou_etri_project.Base.{
  ℕ, ◌+◌, ◌*◌, ◌%◌, ◌<◌, ◌≡◌, ◌≢◌, refl, sym, ap, ◌∙◌, List, [], ◌∷◌, ◌++◌, some, ◌==◌, get_elem?,
  length, length-append, All, false, arith,
}
use ajou_etri_project.Msg.{Addr, Preq, Prep, aodv, preq, prep, sizeof_preq, sizeof_prep, sizeof_ext}
use ajou_etri_project.Node.{Node, send, send_to, broadcast, unicast, cch}
use ajou_etri_project.Node.Make.{take_ext, make_prep}
use ajou_etri_project.Node.Send.{preq_forward, prep_forward}

take_ext-append : (path l : List Addr) → take_ext (length path) (path ++ l) ≡ some path
unfolding take_ext
take_ext-append [] l = refl
take_ext-append (a ∷ path) l = rw (take_ext-append path l) refl

at-append : (path l : List Addr) (a : Addr) → get_elem? (path ++ a ∷ l) (length path) ≡ some a
at-append [] l a = refl
at-append (b ∷ path) l a = at-append path l a

append-[] : (path : List Addr) → path ++ [] ≡ path
append-[] [] = refl
append-[] (a ∷ path) = ap (λ l. a ∷ l) (append-[] path)

pub take_ext-all : (path : List Addr) → take_ext (length path) path ≡ some path
take_ext-all path = ap (take_ext (length path)) (sym (append-[] path)) ∙ take_ext-append path []

abbrev pub NoneZero : List Addr → Type 0
NoneZero l = All (λ a. a ≢ 0) l

-- The first address is there, and not zero.
first-append :
    (path l : List Addr) (a : Addr)
    → NoneZero (path ++ a ∷ l)
    → (b : Addr) × (get_elem? (path ++ a ∷ l) 0 ≡ some b) × ((b == 0) ≡ false)
first-append [] l a z = let w = z.0 in (a, refl, ground arith)
first-append (b ∷ path) l a z = let w = z.0 in (b, refl, ground arith)

-- The request as the node passes it on.
abbrev pub passed : Preq → Preq
passed p = record p { ttl = (p.ttl + 255) % 256; hcnt = (p.hcnt + 1) % 256 }

-- The reply to a request that collected `k` addresses before the last.
abbrev pub reply : Preq → Node → ℕ → Prep
reply p r k = record {
  hcnt = 1;
  dest_addr = p.orig_addr;
  dest_ip = p.orig_ip;
  orig_addr = r.root_addr;
  ext_length = k;
  orig_ip = r.my_ip;
  seqno = p.seqno % 256;
}

preq_forward-path :
    (p : Preq) (path : List Addr) (n : Node)
    → p.hcnt ≡ length path
    → (p.ttl + 255) % 256 ≢ 0
    → preq_forward p path n
      ≡ send
          (sizeof_preq + sizeof_ext * ((p.hcnt + 1) % 256))
          (aodv (preq (passed p) (path ++ n.my_mac ∷ [])))
          broadcast
          cch
          n
unfolding preq_forward
preq_forward-path p path n e t =
    let live : ((p.ttl + 255) % 256 == 0) ≡ false = ground arith in
    let whole : take_ext p.hcnt path ≡ some path =
      ap (λ k. take_ext k path) e ∙ take_ext-all path in
    rw live (rw whole refl)

pub make_prep-path :
    (p : Preq) (path : List Addr) (a : Addr) (l : List Addr) (r : Node)
    → p.hcnt ≡ length path + 1
    → length path < 255
    → make_prep p (path ++ a ∷ l) r
      ≡ send_to a
          (sizeof_prep + sizeof_ext * length path)
          (aodv (prep (reply p r (length path)) path))
          unicast
          cch
          r
unfolding make_prep
make_prep-path p path a l r e h =
    let k : (p.hcnt + 255) % 256 ≡ length path = omega arith in
    rw k (rw (take_ext-append path (a ∷ l)) (rw (at-append path l a) refl))

prep_forward-path :
    (p : Prep) (path : List Addr) (a : Addr) (l : List Addr) (n : Node)
    → p.ext_length ≡ length path + 1
    → length path < 255
    → NoneZero (path ++ a ∷ l)
    → prep_forward p (path ++ a ∷ l) n
      ≡ send_to a
          (sizeof_prep + sizeof_ext * length path)
          (aodv (prep (record p { ext_length = length path }) path))
          unicast
          cch
          n
unfolding prep_forward
prep_forward-path p path a l n e h z =
    let k : (p.ext_length + 255) % 256 ≡ length path = omega arith in
    let f = first-append path l a z in
    rw k (rw (f.1) (rw (f.2) (rw (take_ext-append path (a ∷ l)) (rw (at-append path l a) refl))))

-- A request that travelled fewer than 255 hops, over nodes with nonzero addresses, and is passed on by
-- `n` with time to live reaches the root `r` with the address of `n` behind it; the reply that `r` makes goes to `n`, with the addresses that
-- `n` had received; and `n` passes it on to the node that it had the request from, with those before.
pub preq_forward-make_prep :
    (p : Preq) (path : List Addr) (b : Addr) (n r : Node)
    → p.hcnt ≡ length path + 1
    → p.hcnt < 255
    → (p.ttl + 255) % 256 ≢ 0
    → NoneZero (path ++ b ∷ [])
    → (preq_forward p (path ++ b ∷ []) n
        ≡ send
            (sizeof_preq + sizeof_ext * (p.hcnt + 1))
            (aodv (preq (passed p) ((path ++ b ∷ []) ++ n.my_mac ∷ [])))
            broadcast
            cch
            n)
      × (make_prep (passed p) ((path ++ b ∷ []) ++ n.my_mac ∷ []) r
          ≡ send_to n.my_mac
              (sizeof_prep + sizeof_ext * p.hcnt)
              (aodv (prep (reply p r p.hcnt) (path ++ b ∷ [])))
              unicast
              cch
              r)
      × (prep_forward (reply p r p.hcnt) (path ++ b ∷ []) n
          ≡ send_to b
              (sizeof_prep + sizeof_ext * length path)
              (aodv (prep (reply p r (length path)) path))
              unicast
              cch
              n)
preq_forward-make_prep p path b n r e h t z =
    let whole : p.hcnt ≡ length (path ++ b ∷ []) = omega (arith, length-append path (b ∷ [])) in
    let grown : (p.hcnt + 1) % 256 ≡ p.hcnt + 1 = omega arith in
    (
      preq_forward-path p (path ++ b ∷ []) n whole t
          ∙ ap
              (λ k.
                send (sizeof_preq + sizeof_ext * k)
                  (aodv (preq (passed p) ((path ++ b ∷ []) ++ n.my_mac ∷ []))) broadcast cch n)
              grown,
      make_prep-path (passed p) (path ++ b ∷ []) n.my_mac [] r (omega arith) (omega arith)
          ∙ ap
              (λ k.
                send_to n.my_mac (sizeof_prep + sizeof_ext * k)
                  (aodv (prep (reply p r k) (path ++ b ∷ []))) unicast cch r)
              (sym whole),
      prep_forward-path (reply p r p.hcnt) path b [] n e (omega arith) z,
    )
