-- ===== src/Students/Sort/Swap.antt =====
-- The exchange of two slots of the index file, on bytes and on entries.
use the_operating_system.Common.{
  ℕ, suc, ◌+◌, ◌*◌, ◌<◌, ◌≡◌, refl, ap, sym, subst, ◌∙◌, Bool, List, ◌∷◌, ◌++◌, arith, append_assoc,
  length, length-append, drop-append, Holds,
}
use the_operating_system.Common.Bytes.{int_bytes, off_bytes}
use the_operating_system.Posix.{Message}
use the_operating_system.Posix.Calls.{files, seek_index, off_checked}
use the_operating_system.Posix.Writing.{middle_index}
use the_operating_system.Students.Layout.{slots_bytes, length-slots_bytes}
use the_operating_system.Students.Slots.{slots_bytes-append}
use the_operating_system.Students.Search.Find.{Reads}
use the_operating_system.Students.Sort.{swap_slots}
use the_operating_system.Students.Sort.Entries.{Entry, slots_of, slots_of-append, length-slots_of}

Holds-middle : (pre bs post : List ℕ) (p : ℕ) → p ≡ length pre → Holds (pre ++ (bs ++ post)) p bs
Holds-middle pre bs post p e =
    subst (λ k. Holds (pre ++ (bs ++ post)) k bs) (sym e)
      (record { rest = post; here = drop-append pre (bs ++ post) })

regroup : (f g m x : List ℕ) → f ++ (g ++ (m ++ x)) ≡ (f ++ (g ++ m)) ++ x
regroup f g m x = ap (λ l. f ++ l) (sym (append_assoc g m x)) ∙ sym (append_assoc f (g ++ m) x)

swap_bytes :
    (d : List ℕ) (dp : ℕ) (a : Bool) (ip : ℕ) (out : List Message) (front mid after : List ℕ)
    (p q u v : ℕ)
    → p ≡ length front
    → q ≡ length front + (8 + length mid)
    → q < 0x8000_0000_0000_0000
    → u < 0x1_0000_0000_0000_0000
    → v < 0x1_0000_0000_0000_0000
    → Reads d (front ++ (off_bytes v ++ (mid ++ (off_bytes u ++ after)))) a out tt (
        swap_slots p q
          (files d dp a (front ++ (off_bytes u ++ (mid ++ (off_bytes v ++ after)))) ip out))
unfolding swap_slots
swap_bytes d dp a ip out front mid after p q u v hp hq small hu hv =
    let whole = front ++ (off_bytes u ++ (mid ++ (off_bytes v ++ after))) in
    let far : (w : ℕ) → q ≡ length (front ++ (off_bytes w ++ mid)) =
      λ w. omega (arith, length-append front (off_bytes w ++ mid)) in
    let second : Holds whole q (off_bytes v) =
      subst (λ l. Holds l q (off_bytes v))
        (sym (regroup front (off_bytes u) mid (off_bytes v ++ after)))
        (Holds-middle (front ++ (off_bytes u ++ mid)) (off_bytes v) after q (far u)) in
    rw
      (
        seek_index _ _ _ _ _ _ p (omega arith),
        off_checked d dp a whole p out u
            (Holds-middle front (off_bytes u) (mid ++ (off_bytes v ++ after)) p hp) hu,
        seek_index _ _ _ _ _ _ q small,
        off_checked d dp a whole q out v second hv,
        seek_index _ _ _ _ _ _ p (omega arith),
        middle_index d dp a front (off_bytes u) (mid ++ (off_bytes v ++ after)) (off_bytes v) p out
            hp refl,
        seek_index _ _ _ _ _ _ q small,
        regroup front (off_bytes v) mid (off_bytes v ++ after),
        middle_index d dp a (front ++ (off_bytes v ++ mid)) (off_bytes v) after (off_bytes u) q out
            (far v) refl,
        regroup front (off_bytes v) mid (off_bytes u ++ after),
      )
      (dp, length (front ++ (off_bytes v ++ mid)) + 8, refl)

abbrev pub entry_bytes : List Entry → List ℕ
entry_bytes es = slots_bytes (slots_of es)

-- An index file with the count `n` and the slots of `es`.
abbrev pub listing : ℕ → List Entry → List ℕ
listing n es = int_bytes n ++ entry_bytes es

pub entry_bytes-append :
    (xs ys : List Entry) → entry_bytes (xs ++ ys) ≡ entry_bytes xs ++ entry_bytes ys
entry_bytes-append xs ys =
    ap slots_bytes (slots_of-append xs ys) ∙ slots_bytes-append (slots_of xs) (slots_of ys)

pub length-entry_bytes : (es : List Entry) → length (entry_bytes es) ≡ 8 * length es
length-entry_bytes es = omega (arith, length-slots_bytes (slots_of es), length-slots_of es)

pub listing-append :
    (n : ℕ) (xs ys : List Entry) → listing n (xs ++ ys) ≡ listing n xs ++ entry_bytes ys
listing-append n xs ys =
    ap (λ l. int_bytes n ++ l) (entry_bytes-append xs ys)
    ∙ sym (append_assoc (int_bytes n) (entry_bytes xs) (entry_bytes ys))

listing-swap :
    (n : ℕ) (done mid after : List Entry) (f x : Entry)
    → listing n (done ++ ((f ∷ mid) ++ (x ∷ after)))
      ≡ listing n done
        ++ (off_bytes f.0 ++ (entry_bytes mid ++ (off_bytes x.0 ++ entry_bytes after)))
listing-swap n done mid after f x =
    listing-append n done ((f ∷ mid) ++ (x ∷ after))
    ∙ ap (λ l. listing n done ++ (off_bytes f.0 ++ l)) (entry_bytes-append mid (x ∷ after))

-- Where the index file lists entries, `swap_slots` at the offsets of two of them, the first one
-- ahead of the second, exchanges these two and leaves the others and the data file as they are, if
-- no call of the C library fails.
pub swap_slots-Reads :
    (d : List ℕ) (dp : ℕ) (a : Bool) (ip : ℕ) (out : List Message) (n : ℕ)
    (done mid after : List Entry) (f x : Entry) (p q : ℕ)
    → p ≡ 4 + 8 * length done
    → q ≡ p + 8 * suc (length mid)
    → q < 0x8000_0000_0000_0000
    → f.0 < 0x1_0000_0000_0000_0000
    → x.0 < 0x1_0000_0000_0000_0000
    → Reads d
        (listing n (done ++ (x ∷ (mid ++ (f ∷ after)))))
        a
        out
        tt
        (swap_slots p q (files d dp a (listing n (done ++ ((f ∷ mid) ++ (x ∷ after)))) ip out))
swap_slots-Reads d dp a ip out n done mid after f x p q hp hq small hf hx =
    rw (listing-swap n done mid after f x, listing-swap n done mid after x f)
      (swap_bytes d dp a ip out (listing n done) (entry_bytes mid) (entry_bytes after) p q f.0 x.0
        (omega (arith, hp, length-entry_bytes done))
        (omega (arith, hp, hq, length-entry_bytes done, length-entry_bytes mid)) small hf hx)
