-- ===== src/Str/Flat.antt =====
-- `lstr_flat` of src/str.c gives the texts that were added, one behind the other.
use tangent.Base.{
  ℕ, ◌+◌, ◌≤◌, ◌≡◌, refl, sym, ap, ◌∙◌, true, Option, some, List, [], ◌∷◌, ◌++◌, append_assoc,
  append-nil, length, length-append, leb, ltb, ltb_iff, arith,
}
use tangent.Base.Bind.{◌>>=◌}
use tangent.Str.{
  LinkedStringNode, LinkedString, lstr_add_node, lstr_add, lstr_new, total_len, append_text,
  append_all, lstr_flat,
}

-- `lstr_new` with the first text, and `lstr_add` with each of the others.
abbrev pub add_all : LinkedString → List (List ℕ) → Option LinkedString
add_all str [] = some str
add_all str (text ∷ texts) = lstr_add str text >>= λ s. add_all s texts

abbrev pub concat : List (List ℕ) → List ℕ
concat [] = []
concat (text ∷ texts) = text ++ concat texts

abbrev node_of : List ℕ → LinkedStringNode
node_of text = record { chars = text; len = length text + 1 }

abbrev nodes_of : List (List ℕ) → LinkedString
nodes_of [] = []
nodes_of (text ∷ texts) = node_of text ∷ nodes_of texts

lstr_add-some :
    (str : LinkedString) (text : List ℕ) → lstr_add str text ≡ some (str ++ (node_of text ∷ []))
unfolding lstr_add lstr_add_node
lstr_add-some str text =
    let e : leb (length text + 1) (length text + 1) ≡ true = ground arith in rw e refl

add_all-some :
    (str : LinkedString) (texts : List (List ℕ)) → add_all str texts ≡ some (str ++ nodes_of texts)
add_all-some str [] = ap some (sym (append-nil str))
add_all-some str (text ∷ texts) = rw (lstr_add-some str text) (
    add_all-some (str ++ (node_of text ∷ [])) texts
    ∙ ap some (append_assoc str (node_of text ∷ []) (nodes_of texts)))

total_len-nodes_of :
    (texts : List (List ℕ)) (n : ℕ)
    → total_len (nodes_of texts) n ≡ n + length (concat texts) + length texts
unfolding total_len
total_len-nodes_of [] n = omega arith
total_len-nodes_of (text ∷ texts) n =
    total_len-nodes_of texts (n + (length text + 1))
    ∙ omega (arith, length-append text (concat texts))

append_all-some :
    (size : ℕ) (texts : List (List ℕ)) (flat : List ℕ)
    → length flat + length (concat texts) + 1 ≤ size
    → append_all size (nodes_of texts) flat ≡ some (flat ++ concat texts)
unfolding append_all append_text
append_all-some size [] flat h = ap some (sym (append-nil flat))
append_all-some size (text ∷ texts) flat h =
    let k = length-append text (concat texts) in
    let e : leb (length flat + length text + 1) size ≡ true = ground (arith, k) in
    rw (e, append_text)
      (append_all-some size texts (flat ++ text) (omega (arith, k, length-append flat text))
        ∙ ap some (append_assoc flat text (concat texts)))

-- A string that is made with one text, to which any others are added, flattens to all of them in the
-- order in which they were added: no write on the way passes the end of a block.
pub lstr_flat-add_all :
    (first : List ℕ) (texts : List (List ℕ))
    → (str : LinkedString) × ((lstr_new first >>= λ s. add_all s texts) ≡ some str)
      × (lstr_flat str ≡ some (first ++ concat texts))
unfolding lstr_new lstr_flat
lstr_flat-add_all first texts =
    (nodes_of (first ∷ texts), add_all-some [] (first ∷ texts), flattened)
  where
    size : ℕ
    size = total_len (nodes_of (first ∷ texts)) 0

    flattened : lstr_flat (nodes_of (first ∷ texts)) ≡ some (first ++ concat texts)
    flattened =
        let n = total_len-nodes_of (first ∷ texts) 0 in
        let positive : ltb 0 size ≡ true = (ltb_iff 0 size).1 (omega (arith, n)) in
        rw positive (append_all-some size (first ∷ texts) [] (omega (arith, n)))
