-- ===== src/Nms/Size.antt =====
-- The table for the management system keeps its number of rows.
use ajou_etri_project.Base.{
  ℕ, suc, ◌≡◌, refl, ap, ◌∙◌, List, [], ◌∷◌, map, ◌==◌, ltb, length, length-modify, find_index,
  Option-elim, Ensures, Ensures-if, ends, faults,
}
use ajou_etri_project.Msg.{Addr}
use ajou_etri_project.Nms.{
  Table, Config, mac_list, place, is_unused, find, insert, empty_rows, perr_rounds, perr_update,
  row_count,
}

pub length-map : {A B : Type 0} (f : A → B) (l : List A) → length (map f l) ≡ length l
length-map f [] = refl
length-map f (x ∷ l) = ap suc (length-map f l)

pub length-insert :
    (c : Config) (t : Table) (a neighbor : Addr) (r_ch state is_hello : ℕ)
    → length (insert c t a neighbor r_ch state is_hello) ≡ length t
unfolding insert
length-insert c t a neighbor r_ch state is_hello =
    Option-elim P (find_index is_unused t) refl
      (λ _. Option-elim P (place a mac_list) refl (λ i. length-modify t i _))
  where
    P : Table → Type 0
    P r = length r ≡ length t

pub length-perr_update : (t : Table) (a : Addr) → length (perr_update t a) ≡ length t
unfolding perr_update
length-perr_update t a =
    length-map (perr_rounds a 8 0) _
    ∙ Option-elim (λ (r : Table). length r ≡ length t) (find t a) refl (λ i. length-modify t i _)

pub empty_rows-length :
    (c : Config) (my_mac : Addr) (t : Table) (index : ℕ)
    → Ensures (λ r. length r ≡ length t) (empty_rows c my_mac t index)
unfolding empty_rows
empty_rows-length c my_mac t index =
    Ensures-if (index == row_count) (ends (length-modify _ 0 _ ∙ length-map _ t))
      (Ensures-if (ltb row_count index) (ends refl) faults)
