-- ===== src/Monitor/Servers/Known.antt =====
-- What the table shows of one server, as a history of its own.

use text.Mathlib.Text.{◌==◌ as str_eq}
use text.Mathlib.TextEquality.{eq_iff}
use nats_desktop.Base.{
  Bool, Bool-cases, List, Option, String, [], ap, arith, false, if◌then◌else◌, inl, inr, none, refl,
  some, sym, true, ℕ, ◌++◌, ◌||◌, ◌∙◌, ◌∷◌, ◌≡◌,
}
use nats_desktop.Monitor.Servers.{
  Cycle, Row, answered, carry, collect_snapshot, cycles, degraded, missed, put, put_all,
  row_by_name,
}

same_name : (j k name : String) → str_eq j k ≡ true → str_eq k name ≡ false → str_eq j name ≡ false
same_name j k name e f = ground (arith, eq_iff j k, eq_iff k name, eq_iff j name, e, f)

other_name : (j k name : String) → str_eq j k ≡ false → str_eq j name ≡ true → str_eq k name ≡ false
other_name j k name e f = ground (arith, eq_iff j k, eq_iff k name, eq_iff j name, e, f)

module _ {ℓ} {A : Type ℓ} where
  -- The row of a server in a map.
  pub find : String → List (Row A) → Option (Row A)
  find name [] = none
  find name (r ∷ rows) = if str_eq r.name name then some r else find name rows

  -- The last row of a name, else the given one.
  pub last_of : String → List (Row A) → Option (Row A) → Option (Row A)
  last_of name [] o = o
  last_of name (r ∷ rows) o = last_of name rows (if str_eq r.name name then some r else o)

  abbrev pub missed_row : ℕ → Option (Row A) → Option (Row A)
  missed_row now none = none
  missed_row now (some r) = some (missed now r)

  -- One server in one cycle: its answer, or what was known of it, marked offline.
  pub server_cycle : String → Cycle A → Option (Row A) → Option (Row A)
  unfolding last_of
  server_cycle name degraded o = o
  server_cycle name (answered now rows) o = last_of name rows (missed_row now o)

  pub server_cycles : String → List (Cycle A) → Option (Row A) → Option (Row A)
  unfolding server_cycle
  server_cycles name [] o = o
  server_cycles name (c ∷ cs) o = server_cycles name cs (server_cycle name c o)

  find-put :
      (name : String) (r : Row A) (l : List (Row A))
      → find name (put r l) ≡ (if str_eq r.name name then some r else find name l)
  unfolding find put
  find-put name r [] = refl
  find-put name r (k ∷ l) =
      let h = find-put name r l in
      elim (Bool-cases (str_eq k.name r.name)) [
        | inl e ↦ elim (Bool-cases (str_eq r.name name)) [
          | inl f ↦ rw (e, f) refl
          | inr f ↦ rw (e, f, same_name k.name r.name name e f) refl
        ]
        | inr e ↦ elim (Bool-cases (str_eq k.name name)) [
          | inl f ↦ rw (e, f, other_name k.name r.name name e f) refl
          | inr f ↦ rw (e, f) h
        ]
      ]

  find-put_all :
      (name : String) (rows l : List (Row A))
      → find name (put_all rows l) ≡ last_of name rows (find name l)
  unfolding put_all last_of
  find-put_all name [] l = refl
  find-put_all name (r ∷ rows) l =
      find-put_all name rows (put r l)
      ∙ ap (λ (o : Option (Row A)). last_of name rows o) (find-put name r l)

  -- Whether a server has answered does not depend on which of its rows is taken.
  answered-last :
      (name : String) (rows : List (Row A)) (o q : Option (Row A))
      → row_by_name rows name ≡ true
      → last_of name rows o ≡ last_of name rows q
  unfolding row_by_name last_of
  answered-last name [] o q h = cc
  answered-last name (r ∷ rows) o q h = elim (Bool-cases (str_eq r.name name)) [
    | inl e ↦ rw e refl
    | inr e ↦ rw e (answered-last name rows o q (ground (arith, e, h)))
  ]

  silent-last :
      (name : String) (rows : List (Row A)) (o : Option (Row A))
      → row_by_name rows name ≡ false
      → last_of name rows o ≡ o
  unfolding row_by_name last_of
  silent-last name [] o h = refl
  silent-last name (r ∷ rows) o h = elim (Bool-cases (str_eq r.name name)) [
    | inl e ↦ absurd (ground (arith, e, h))
    | inr e ↦ rw e (silent-last name rows o (ground (arith, e, h)))
  ]

  last_of-append :
      (name : String) (xs ys : List (Row A)) (o : Option (Row A))
      → last_of name (xs ++ ys) o ≡ last_of name ys (last_of name xs o)
  unfolding last_of
  last_of-append name [] ys o = refl
  last_of-append name (x ∷ xs) ys o =
      last_of-append name xs ys (if str_eq x.name name then some x else o)

  row_by_name-append :
      (name : String) (xs ys : List (Row A))
      → row_by_name (xs ++ ys) name ≡ (row_by_name xs name || row_by_name ys name)
  unfolding row_by_name
  row_by_name-append name [] ys = refl
  row_by_name-append name (x ∷ xs) ys = let h = row_by_name-append name xs ys in ground (arith, h)

  chosen : {b : Bool} → b ≡ true → (o q : Option (Row A)) → (if b then o else q) ≡ o
  chosen h o q = rw h refl

  not_chosen : {b : Bool} → b ≡ false → (o q : Option (Row A)) → (if b then o else q) ≡ q
  not_chosen h o q = rw h refl

  last_of-one :
      (now : ℕ) (name : String) (prev : Row A) (o : Option (Row A))
      → last_of name (missed now prev ∷ []) o
        ≡ (if str_eq prev.name name then some (missed now prev) else o)
  unfolding last_of missed
  last_of-one now name prev o = refl

  answered-named :
      (j name : String) (rows : List (Row A)) (b : Bool)
      → str_eq j name ≡ true
      → row_by_name rows j ≡ b
      → row_by_name rows name ≡ b
  answered-named j name rows b e h =
      ap (λ (x : String). row_by_name rows x) (sym ((eq_iff j name).0 e)) ∙ h

  -- The carried rows show a server as it answered, else as it was known.
  carry-last :
      (now : ℕ) (name : String) (known rows : List (Row A))
      → last_of name (carry now rows known) none
        ≡ last_of name rows (missed_row now (find name known))
  unfolding carry find
  carry-last now name [] rows = refl
  carry-last now name (prev ∷ known) rows = elim (Bool-cases (row_by_name rows prev.name)) [
    | inl e ↦
        let h = carry-last now name known rows in
        elim (Bool-cases (str_eq prev.name name)) [
          | inl f ↦
              let b = answered-named prev.name name rows true f e in
              simp (e, f)
                (h
                  ∙ answered-last name rows (missed_row now (find name known))
                      (some (missed now prev)) b)
          | inr f ↦ simp (e, f) h
        ]
    | inr e ↦
        let m = missed now prev ∷ [] in
        let x = missed_row now (find name known) in
        let h =
          carry-last now name known (rows ++ m)
          ∙ last_of-append name rows m x
          ∙ last_of-one now name prev (last_of name rows x) in
        elim (Bool-cases (str_eq prev.name name)) [
          | inl f ↦
              let b = answered-named prev.name name rows false f e in
              let g = silent-last name rows (some (missed now prev)) b in
              simp (e, f, g) (h ∙ chosen f (some (missed now prev)) (last_of name rows x))
          | inr f ↦ simp (e, f) (h ∙ not_chosen f (some (missed now prev)) (last_of name rows x))
        ]
  ]

  find-nil : (name : String) → find name [] ≡ none
  unfolding find
  find-nil name = refl

  find-cycle :
      (name : String) (c : Cycle A) (known : List (Row A))
      → find name (collect_snapshot c known).0 ≡ server_cycle name c (find name known)
  unfolding collect_snapshot server_cycle
  find-cycle name degraded known = refl
  find-cycle name (answered now rows) known =
      find-put_all name (carry now rows known) []
      ∙ ap (λ (o : Option (Row A)). last_of name (carry now rows known) o) (find-nil name)
      ∙ carry-last now name known rows

  -- Over any sequence of cycles, whatever other servers do and in whatever order the known servers
  -- are gone through, the row that is known of a server is that of its own history: a cycle in which
  -- it answers takes its last row, one in which it does not answer keeps what was known of it,
  -- marked as missed, and a degraded one changes nothing.
  pub find-cycles :
      (name : String) (cs : List (Cycle A)) (known : List (Row A))
      → find name (cycles cs known) ≡ server_cycles name cs (find name known)
  unfolding cycles server_cycles
  find-cycles name [] known = refl
  find-cycles name (c ∷ cs) known =
      find-cycles name cs (collect_snapshot c known).0
      ∙ ap (λ (o : Option (Row A)). server_cycles name cs o) (find-cycle name c known)
