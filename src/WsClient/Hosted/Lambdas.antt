-- ===== src/WsClient/Hosted/Lambdas.antt =====
-- The lambdas that ids stand for, as more of them are posted.
use mathlib.Core.List.{append_assoc}
use lynne_social.Prelude.{
  ◌≡◌, refl, sym, ap, ◌∙◌, List, [], ◌∷◌, ◌++◌, ℕ, suc, ◌+◌, ◌<◌, ◌≤◌, length, length-append,
  get_elem?, get_elem?-append_left, get_elem?-append_length, All, arith,
}
use lynne_social.WsClient.{Delivery}
use lynne_social.WsClient.Hosted.{lambda, lambdas}

-- The ids that `ds` get, from `n` on.
abbrev pub ids : ℕ → List Delivery → List ℕ
ids n [] = []
ids n (d ∷ ds) = n ∷ ids (suc n) ds

lambdas-append :
    (tasks : List Delivery) (is js : List ℕ)
    → lambdas tasks (is ++ js) ≡ lambdas tasks is ++ lambdas tasks js
lambdas-append tasks [] js = refl
lambdas-append tasks (i ∷ is) js =
    ap (λ l. lambda (get_elem? tasks i) ++ l) (lambdas-append tasks is js)
    ∙ sym (append_assoc (lambda (get_elem? tasks i)) (lambdas tasks is) (lambdas tasks js))

lambdas-older :
    (tasks ds : List Delivery) (is : List ℕ)
    → All (λ i. i < length tasks) is
    → lambdas (tasks ++ ds) is ≡ lambdas tasks is
lambdas-older tasks ds [] h = refl
lambdas-older tasks ds (i ∷ is) h =
    rw (get_elem?-append_left tasks ds i h.0, lambdas-older tasks ds is h.1)

lambdas-ids : (tasks ds : List Delivery) → lambdas (tasks ++ ds) (ids (length tasks) ds) ≡ ds
lambdas-ids tasks [] = refl
lambdas-ids tasks (d ∷ ds) =
    let one : suc (length tasks) ≡ length (tasks ++ (d ∷ [])) =
      omega (arith, length-append tasks (d ∷ [])) in
    let more : tasks ++ (d ∷ ds) ≡ (tasks ++ (d ∷ [])) ++ ds =
      sym (append_assoc tasks (d ∷ []) ds) in
    rw (get_elem?-append_length tasks d ds) (
      ap (λ l. d ∷ l)
        ((λ i. lambdas (more i) (ids (one i) ds)) ∙ lambdas-ids (tasks ++ (d ∷ [])) ds))

-- Older ids keep their lambdas, and the new ids stand for the new ones.
pub lambdas-posts :
    (tasks ds : List Delivery) (is : List ℕ)
    → All (λ i. i < length tasks) is
    → lambdas (tasks ++ ds) (is ++ ids (length tasks) ds) ≡ lambdas tasks is ++ ds
lambdas-posts tasks ds is h =
    lambdas-append (tasks ++ ds) is (ids (length tasks) ds)
    ∙ rw (lambdas-older tasks ds is h, lambdas-ids tasks ds) refl

pub ids-below : (n m : ℕ) (ds : List Delivery) → n + length ds ≤ m → All (λ i. i < m) (ids n ds)
ids-below n m [] h = tt
ids-below n m (d ∷ ds) h = (omega arith, ids-below (suc n) m ds (omega arith))
