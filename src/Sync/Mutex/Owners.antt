-- ===== src/Sync/Mutex/Owners.antt =====
-- The lists of `owners2Lockers`, and what the loop of `Unlock` leaves of one.
use mathlib.Core.List.{append-nil}
use blank_sr.Base.{
  ℕ, zero, suc, ◌≡◌, refl, ap, ◌∙◌, String, Option, none, some, List, [], ◌∷◌, ◌++◌, arith, ◌==◌,
  if◌then◌else◌, string_eq, nat_eq, length, take, drop, take-length, drop-length, get_elem?,
  remove_at, without,
}
use blank_sr.Base.Map.{Map, lookup-insert, lookup-erase}
use blank_sr.Sync.Mutex.{ids, cut, drop_if_empty, forget}

module _ (id : String) where
  -- The list with its entry at `i` cut out if that is `id`.
  cut_list : ℕ → List String → List String
  cut_list i [] = []
  cut_list zero (x ∷ xs) = if id == x then xs else x ∷ xs
  cut_list (suc i) (x ∷ xs) = x ∷ cut_list i xs

  without-cut_list :
      (i : ℕ) (l : List String)
      → without id (take i (cut_list i l)) ++ drop i (cut_list i l)
        ≡ without id (take (suc i) l) ++ drop (suc i) l
  unfolding cut_list
  without-cut_list zero [] = refl
  without-cut_list (suc i) [] = refl
  without-cut_list zero (x ∷ xs) = ground arith
  without-cut_list (suc i) (x ∷ xs) = ground (arith, without-cut_list i xs)

  cut_list_miss : (i : ℕ) (l : List String) → get_elem? l i ≡ none → cut_list i l ≡ l
  unfolding cut_list
  cut_list_miss i [] h = refl
  cut_list_miss zero (x ∷ xs) h = cc
  cut_list_miss (suc i) (x ∷ xs) h = ap (◌∷◌ x) (cut_list_miss i xs h)

  cut_list_hit :
      (i : ℕ) (l : List String) (j : String)
      → get_elem? l i ≡ some j
      → cut_list i l ≡ (if id == j then remove_at i l else l)
  unfolding cut_list
  cut_list_hit i [] j h = cc
  cut_list_hit zero (x ∷ xs) j h = ground arith
  cut_list_hit (suc i) (x ∷ xs) j h = ground (arith, cut_list_hit i xs j h)

module _ (owner id : String) where
  ids-drop_if_empty :
      (m : Map String (List String)) (o : String) → ids o (drop_if_empty owner m) ≡ ids o m
  unfolding drop_if_empty nat_eq
  ids-drop_if_empty m o = ground (arith, lookup-erase owner o m)

  ids-cut :
      (i : ℕ) (m : Map String (List String)) (h : Option String) (o : String)
      → get_elem? (ids owner m) i ≡ h
      → ids o (cut h i owner id m) ≡ (if owner == o then cut_list id i (ids owner m) else ids o m)
  unfolding cut
  ids-cut i m none o e = ground (arith, cut_list_miss id i (ids owner m) e)
  ids-cut i m (some j) o e = ground (
    arith,
    cut_list_hit id i (ids owner m) j e,
    lookup-insert owner o (remove_at i (ids owner m)) m,
  )

  -- The map after the round of the loop for index `i`.
  after_round : ℕ → Map String (List String) → Map String (List String)
  after_round i m = drop_if_empty owner (cut (get_elem? (ids owner m) i) i owner id m)

  ids-after_round :
      (i : ℕ) (m : Map String (List String)) (o : String)
      → ids o (after_round i m) ≡ (if owner == o then cut_list id i (ids owner m) else ids o m)
  unfolding after_round
  ids-after_round i m o = ids-drop_if_empty _ o ∙ ids-cut i m (get_elem? (ids owner m) i) o refl

  forget-suc :
      (i : ℕ) (m : Map String (List String))
      → forget (suc i) owner id m ≡ forget i owner id (after_round i m)
  unfolding forget after_round
  forget-suc i m = refl

  forget-zero : (m : Map String (List String)) → forget zero owner id m ≡ m
  unfolding forget
  forget-zero m = refl

  ids-forget_from :
      (i : ℕ) (m : Map String (List String)) (o : String)
      → ids o (forget i owner id m) ≡ (
          if owner == o then without id (take i (ids owner m)) ++ drop i (ids owner m) else ids o m)
  ids-forget_from zero m o = rw (forget-zero m) (ground arith)
  ids-forget_from (suc i) m o = rw (forget-suc i m) (
      ground (
        arith,
        ids-forget_from i (after_round i m) o,
        ids-after_round i m owner,
        ids-after_round i m o,
        without-cut_list id i (ids owner m),
      ))

  -- The loop takes every copy of the id from the owner's list and touches no other list.
  pub ids-forget :
      (m : Map String (List String)) (o : String)
      → ids o (forget (length (ids owner m)) owner id m)
        ≡ (if owner == o then without id (ids owner m) else ids o m)
  ids-forget m o =
      ids-forget_from (length (ids owner m)) m o
      ∙ rw (take-length (ids owner m), drop-length (ids owner m), append-nil) refl
