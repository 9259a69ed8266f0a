-- ===== src/Broker/Offline/Sums.antt =====
-- internal/mqttsrv/offline.go: sums over the sessions, and what an operation does to them.
use colca.Prelude.{
  ℕ, ◌+◌, Text, text_beq, text_eq, text_beq_refl, text_beq_sound, Table, lookup, insert, erase,
  lookup-insert, lookup-erase, [], ◌∷◌, false, Option, some, none, ◌≡◌, refl, sym, arith,
  Bool-cases, inl, inr,
}
use colca.Broker.Offline.{OfflineSession}

-- The sum of a number over the entries of a map.
unfoldable pub sum_of : (OfflineSession → ℕ) → Table Text OfflineSession → ℕ
sum_of f [] = 0
sum_of f ((id, s) ∷ m) = f s + sum_of f m

unfoldable pub number : (OfflineSession → ℕ) → Option OfflineSession → ℕ
number f none = 0
number f (some s) = f s

-- Each key stands once.
unfoldable pub IsDistinct : Table Text OfflineSession → Type 0
IsDistinct [] = Unit
IsDistinct ((id, s) ∷ m) = (lookup id m ≡ none) × IsDistinct m

pub sum-insert :
    (f : OfflineSession → ℕ) (id : Text) (s : OfflineSession) (m : Table Text OfflineSession)
    → sum_of f (insert id s m) + number f (lookup id m) ≡ sum_of f m + f s
unfolding sum_of insert lookup number
sum-insert f id s [] = omega arith
sum-insert f id s ((j, t) ∷ m) = elim (Bool-cases (text_beq j id)) [
  | inl q ↦ rw q (omega arith)
  | inr q ↦ rw q (omega (arith, sum-insert f id s m))
]

erase-absent :
    (f : OfflineSession → ℕ) (id : Text) (m : Table Text OfflineSession)
    → lookup id m ≡ none
    → sum_of f (erase id m) ≡ sum_of f m
unfolding sum_of erase lookup
erase-absent f id [] h = refl
erase-absent f id ((j, t) ∷ m) h = elim (Bool-cases (text_beq j id)) [
  | inl q ↦ cc (rw q at h)
  | inr q ↦ rw q (omega (arith, erase-absent f id m (rw q at h)))
]

pub sum-erase :
    (f : OfflineSession → ℕ) (id : Text) (m : Table Text OfflineSession)
    → IsDistinct m
    → sum_of f (erase id m) + number f (lookup id m) ≡ sum_of f m
unfolding sum_of erase lookup number IsDistinct
sum-erase f id [] d = refl
sum-erase f id ((j, t) ∷ m) (fresh, d) = elim (Bool-cases (text_beq j id)) [
  | inl q ↦
      let gone : lookup id m ≡ none = rw (sym (text_beq_sound j id q)) fresh in
      rw q (omega (arith, erase-absent f id m gone))
  | inr q ↦ rw q (omega (arith, sum-erase f id m d))
]

pub insert-IsDistinct :
    (id : Text) (s : OfflineSession) (m : Table Text OfflineSession)
    → IsDistinct m
    → IsDistinct (insert id s m)
unfolding IsDistinct insert lookup
insert-IsDistinct id s [] d = (refl, tt)
insert-IsDistinct id s ((j, t) ∷ m) (fresh, d) = elim (Bool-cases (text_beq j id)) [
  | inl q ↦ rw q (fresh, d)
  | inr q ↦
      let other : text_beq id j ≡ false = elim (Bool-cases (text_beq id j)) [
        | inl r ↦ absurd (cc (text_beq_sound id j r, q, text_beq_refl j))
        | inr r ↦ r
      ] in
      rw q (rw (lookup-insert id j s m, other) fresh, insert-IsDistinct id s m d)
]

pub erase-IsDistinct :
    (id : Text) (m : Table Text OfflineSession) → IsDistinct m → IsDistinct (erase id m)
unfolding IsDistinct erase lookup
erase-IsDistinct id [] d = tt
erase-IsDistinct id ((j, t) ∷ m) (fresh, d) = elim (Bool-cases (text_beq j id)) [
  | inl q ↦ rw q (erase-IsDistinct id m d)
  | inr q ↦ rw q (
    rw (lookup-erase id j m)
        (elim (Bool-cases (text_beq id j)) [ inl r ↦ rw r refl | inr r ↦ rw r fresh ]),
    erase-IsDistinct id m d,
  )
]
