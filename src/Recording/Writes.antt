-- ===== src/Recording/Writes.antt =====
-- The loops of pwrite_all and write_all, and of read_frame, under any answers of the system.
use perception_pipeline.Recording.Disk.{
  Puts-part, once_more, Steady-less, Puts-nothing, some_more, Puts, Steady,
}
use perception_pipeline.Recording.{
  failed, put, interrupted, wrote, Answer, stored, pread_all, File, write_all, pwrite_all,
}
use perception_pipeline.Prelude.{
  List, [], ap, append-nil, append_assoc, arith, drop, false, inl, inr, length, length-drop, min,
  refl, some, suc, sym, take, take-append-drop, true, zero, ℕ, ◌++◌, ◌+◌, ◌-◌, ◌==◌, ◌∙◌, ◌∷◌, ◌≡◌,
  ◌≤◌, ◌⊎◌,
}

-- Whatever the system's answers are, when pwrite_all is done, the file holds the octets from the offset
-- on, those before the offset are as they were, and the file has not shrunk.
pub pwrite_all-Puts :
    (answers : List Answer) (xs : List ℕ) (offset : ℕ) (f : File)
    → (pwrite_all answers xs offset f).result ≡ some true
    → Puts f offset xs (pwrite_all answers xs offset f).file
unfolding pwrite_all
pwrite_all-Puts answers [] offset f e = Puts-nothing f offset
pwrite_all-Puts [] (x ∷ xs) offset f e = absurd (ground (arith, e))
pwrite_all-Puts (wrote zero ∷ answers) (x ∷ xs) offset f e = absurd (ground (arith, e))
pwrite_all-Puts (wrote (suc n) ∷ answers) (x ∷ xs) offset f e =
    let m = min (suc n) (length (x ∷ xs)) in
    Puts-part f _ offset m (x ∷ xs) (omega arith) (omega arith)
      (pwrite_all-Puts answers (drop m (x ∷ xs)) (offset + m) (put f offset (take m (x ∷ xs))) e)
pwrite_all-Puts (interrupted ∷ answers) (x ∷ xs) offset f e =
    pwrite_all-Puts answers (x ∷ xs) offset f e
pwrite_all-Puts (failed ∷ answers) (x ∷ xs) offset f e = absurd (ground (arith, e))

pub pwrite_all-done :
    (answers : List Answer) (xs : List ℕ) (offset : ℕ) (f : File)
    → Steady (length xs) answers
    → (pwrite_all answers xs offset f).result ≡ some true
unfolding pwrite_all
pwrite_all-done answers [] offset f h = refl
pwrite_all-done [] (x ∷ xs) offset f h = elim h [ ]
pwrite_all-done (wrote zero ∷ answers) (x ∷ xs) offset f h = elim h [ ]
pwrite_all-done (wrote (suc n) ∷ answers) (x ∷ xs) offset f (some_more h) =
    let m = min (suc n) (length (x ∷ xs)) in
    pwrite_all-done answers (drop m (x ∷ xs)) (offset + m) (put f offset (take m (x ∷ xs)))
      (Steady-less _ (omega (arith, length-drop {A = ℕ} m (x ∷ xs))) h)
pwrite_all-done (interrupted ∷ answers) (x ∷ xs) offset f (once_more h) =
    pwrite_all-done answers (x ∷ xs) offset f h
pwrite_all-done (failed ∷ answers) (x ∷ xs) offset f h = elim h [ ]

pub write_all-appends :
    (answers : List Answer) (xs f : List ℕ)
    → (write_all answers xs f).result ≡ some true
    → (write_all answers xs f).file ≡ f ++ xs
unfolding write_all
write_all-appends answers [] f e = sym (append-nil f)
write_all-appends [] (x ∷ xs) f e = absurd (ground (arith, e))
write_all-appends (wrote zero ∷ answers) (x ∷ xs) f e = absurd (ground (arith, e))
write_all-appends (wrote (suc n) ∷ answers) (x ∷ xs) f e =
    let m = min (suc n) (length (x ∷ xs)) in
    write_all-appends answers (drop m (x ∷ xs)) (f ++ take m (x ∷ xs)) e
    ∙ (append_assoc f (take m (x ∷ xs)) (drop m (x ∷ xs))
        ∙ ap (λ ys. f ++ ys) (take-append-drop m (x ∷ xs)))
write_all-appends (interrupted ∷ answers) (x ∷ xs) f e = write_all-appends answers (x ∷ xs) f e
write_all-appends (failed ∷ answers) (x ∷ xs) f e = absurd (ground (arith, e))

pub write_all-done :
    (answers : List Answer) (xs f : List ℕ)
    → Steady (length xs) answers
    → (write_all answers xs f).result ≡ some true
unfolding write_all
write_all-done answers [] f h = refl
write_all-done [] (x ∷ xs) f h = elim h [ ]
write_all-done (wrote zero ∷ answers) (x ∷ xs) f h = elim h [ ]
write_all-done (wrote (suc n) ∷ answers) (x ∷ xs) f (some_more h) =
    let m = min (suc n) (length (x ∷ xs)) in
    write_all-done answers (drop m (x ∷ xs)) (f ++ take m (x ∷ xs))
      (Steady-less _ (omega (arith, length-drop {A = ℕ} m (x ∷ xs))) h)
write_all-done (interrupted ∷ answers) (x ∷ xs) f (once_more h) =
    write_all-done answers (x ∷ xs) f h
write_all-done (failed ∷ answers) (x ∷ xs) f h = elim h [ ]

stored-append :
    (f : File) (offset m n : ℕ)
    → stored f offset m ++ stored f (offset + m) n ≡ stored f offset (m + n)
stored-append f offset zero n =
    let a : offset + 0 ≡ offset = omega arith in let b : 0 + n ≡ n = omega arith in rw a (rw b refl)
stored-append f offset (suc m) n =
    let a : offset + suc m ≡ offset + 1 + m = omega arith in
    let b : suc m + n ≡ suc (m + n) = omega arith in
    rw b (
      ap (λ xs. f.octet offset ∷ xs)
        (ap (λ k. stored f (offset + 1) m ++ stored f k n) a ∙ stored-append f (offset + 1) m n))

pub pread_all-done :
    (answers : List Answer) (n offset : ℕ) (f : File) (done : List ℕ)
    → Steady n answers
    → (n ≡ 0) ⊎ (offset + n ≤ f.size)
    → pread_all answers n offset f done ≡ some (some (done ++ stored f offset n))
unfolding pread_all
pread_all-done answers zero offset f done h l = ap (λ xs. some (some xs)) (sym (append-nil done))
pread_all-done [] (suc n) offset f done h l = elim h [ ]
pread_all-done (wrote zero ∷ answers) (suc n) offset f done h l = elim h [ ]
pread_all-done (wrote (suc k) ∷ answers) (suc n) offset f done (some_more h) l =
    let m = min (suc k) (min (suc n) (f.size - offset)) in
    let fits : offset + suc n ≤ f.size = elim l [ inl e ↦ absurd (omega (arith, e)) | inr e ↦ e ] in
    let some_way : (m == 0) ≡ false = ground (arith, fits) in
    let one : 1 ≤ m = omega (arith, fits) in
    let all : m + (suc n - m) ≡ suc n = omega arith in
    rw some_way (
      pread_all-done answers (suc n - m) (offset + m) f (done ++ stored f offset m)
        (Steady-less (suc n - m) (omega (arith, one)) h) (inr (omega (arith, fits)))
      ∙ ap (λ xs. some (some xs))
          (append_assoc done (stored f offset m) (stored f (offset + m) (suc n - m))
            ∙ ap (λ xs. done ++ xs)
                (stored-append f offset m (suc n - m) ∙ ap (stored f offset) all)))
pread_all-done (interrupted ∷ answers) (suc n) offset f done (once_more h) l =
    pread_all-done answers (suc n) offset f done h l
pread_all-done (failed ∷ answers) (suc n) offset f done h l = elim h [ ]
