-- ===== src/Storage/Mutation.antt =====
-- What `mutateJsonFile` promises of the file it works on.
use ido_bata_server_bot.Prelude.{
  if-intro, subst, sym, ℕ, ◌≡◌, refl, Bool, true, false, Option, none, some, arith, next_outcome,
  if◌then◌else◌,
}
use ido_bata_server_bot.Storage.AtomicJson.{
  JsonError, Result, value, error, read_failed, JsonFile, missing, garbled, foreign, stored,
  WriteOutcome, written, no_directory, no_temp_file, torn, unclosed, unrenamed, Disk, Options,
  result_of, atomic_write_json, mutate_json_file, finish_write, after_write, create_temp,
  remove_temp, create_file, write_changed, parse_content, mutate_read, read_json_file,
  read_existing,
}

module _ {ℓ} {T : Type ℓ} where
  -- The file before, the answer, the file after.
  pub data IsMutation (options : Options T) : JsonFile T → Result Bool → JsonFile T → Type ℓ where
    absent : options.create_if_missing ≡ false → IsMutation options missing (value false) missing
    created :
        (t : T)
        → options.create_if_missing ≡ true
        → options.initial ≡ some t
        → IsMutation options missing (value true) (stored (result_of t (options.mutate t)))
    untouched :
        (t : T)
        → options.valid t ≡ true
        → options.mutate t ≡ none
        → IsMutation options (stored t) (value false) (stored t)
    replaced :
        (t next : T)
        → options.valid t ≡ true
        → options.mutate t ≡ some next
        → IsMutation options (stored t) (value true) (stored next)
    failed : (file : JsonFile T) (e : JsonError) → IsMutation options file (error e) file

  -- The answer and the disk of a mutation that found `file` and `temps`.
  abbrev Keeps : Options T → JsonFile T → ℕ → Result Bool × Disk T → Type ℓ
  Keeps options file temps r = IsMutation options file r.0 r.1.file × (r.1.temps ≡ temps)

  -- A write that fails is one that did not happen.
  finish_write-Keeps :
      (options : Options T) (outcome : WriteOutcome) (next : T) (d : Disk T)
      → IsMutation options d.file (value true) (stored next)
      → Keeps options d.file d.temps (after_write (finish_write outcome next d))
  unfolding finish_write after_write create_temp remove_temp
  finish_write-Keeps options no_directory next d h = (failed d.file _, refl)
  finish_write-Keeps options no_temp_file next d h = (failed d.file _, refl)
  finish_write-Keeps options torn next d h = (failed d.file _, omega arith)
  finish_write-Keeps options unclosed next d h = (failed d.file _, omega arith)
  finish_write-Keeps options unrenamed next d h = (failed d.file _, omega arith)
  finish_write-Keeps options written next d h = (h, omega arith)

  atomic_write_json-Keeps :
      (options : Options T) (next : T) (d : Disk T)
      → IsMutation options d.file (value true) (stored next)
      → Keeps options d.file d.temps (after_write (atomic_write_json next d))
  unfolding atomic_write_json
  atomic_write_json-Keeps options next d =
      let (outcome, rest) = next_outcome written d.writes in
      finish_write-Keeps options outcome next (record d { writes = rest })

  create_file-Keeps :
      (options : Options T) (initial : Option T) (d : Disk T)
      → d.file ≡ missing
      → options.create_if_missing ≡ true
      → options.initial ≡ initial
      → Keeps options d.file d.temps (create_file options.mutate initial d)
  unfolding create_file
  create_file-Keeps options none d empty c i = (failed d.file _, refl)
  create_file-Keeps options (some t) d empty c i =
      atomic_write_json-Keeps options (result_of t (options.mutate t)) d (
        subst (λ f. IsMutation options f (value true) (stored (result_of t (options.mutate t))))
          (sym empty) (created t c i))

  write_changed-Keeps :
      (options : Options T) (t : T) (next : Option T) (d : Disk T)
      → d.file ≡ stored t
      → options.valid t ≡ true
      → options.mutate t ≡ next
      → Keeps options d.file d.temps (write_changed next d)
  unfolding write_changed
  write_changed-Keeps options t none d found v m =
      (subst (λ f. IsMutation options f (value false) f) (sym found) (untouched t v m), refl)
  write_changed-Keeps options t (some next) d found v m = atomic_write_json-Keeps options next d (
      subst (λ f. IsMutation options f (value true) (stored next)) (sym found)
        (replaced t next v m))

  -- On the content of a file that could be read.
  mutate_content-Keeps :
      (options : Options T) (file : JsonFile T) (d : Disk T)
      → d.file ≡ file
      → Keeps options d.file d.temps (mutate_read options (parse_content options.valid file, d))
  unfolding parse_content mutate_read
  mutate_content-Keeps options missing d h =
      if-intro (Keeps options d.file d.temps) options.create_if_missing
        (λ c. create_file-Keeps options options.initial d h c refl)
        (λ c. (subst (λ f. IsMutation options f (value false) f) (sym h) (absent c), refl))
  mutate_content-Keeps options garbled d h = (failed d.file _, refl)
  mutate_content-Keeps options foreign d h = (failed d.file _, refl)
  mutate_content-Keeps options (stored t) d h =
      if-intro (λ r. Keeps options d.file d.temps (mutate_read options (r, d))) (options.valid t)
        (λ v. write_changed-Keeps options t (options.mutate t) d h v refl)
        (λ v. (failed d.file _, refl))

  -- A failed read changes nothing either.
  if_read-Keeps :
      (options : Options T) (readable : Bool) (file : JsonFile T) (d : Disk T)
      → d.file ≡ file
      → Keeps options d.file d.temps (
          mutate_read options
            ((if readable then parse_content options.valid file else error read_failed), d))
  unfolding mutate_read
  if_read-Keeps options true file d h = mutate_content-Keeps options file d h
  if_read-Keeps options false file d h = (failed d.file _, refl)

  read_file-Keeps :
      (options : Options T) (file : JsonFile T) (d : Disk T)
      → d.file ≡ file
      → let r = read_existing options.valid file d.reads in
        Keeps options d.file d.temps (mutate_read options (r.0, record d { reads = r.1 }))
  unfolding read_existing parse_content
  read_file-Keeps options missing d h = mutate_content-Keeps options missing d h
  read_file-Keeps options garbled d h =
      let (readable, rest) = next_outcome true d.reads in
      if_read-Keeps options readable garbled (record d { reads = rest }) h
  read_file-Keeps options foreign d h =
      let (readable, rest) = next_outcome true d.reads in
      if_read-Keeps options readable foreign (record d { reads = rest }) h
  read_file-Keeps options (stored t) d h =
      let (readable, rest) = next_outcome true d.reads in
      if_read-Keeps options readable (stored t) (record d { reads = rest }) h

  -- A mutation keeps to its contract whichever of its reads, writes and renames fail, as long as the
  -- calls that clean up succeed: it answers that it changed the file exactly if the file is now what
  -- `mutate` makes of its valid value (or of the initial value of a missing file), every failure
  -- leaves the file as it was, and no temporary file is left.
  pub mutate_json_file-IsMutation :
      (options : Options T) (d : Disk T)
      → IsMutation options d.file (mutate_json_file options d).0 (mutate_json_file options d).1.file
        × ((mutate_json_file options d).1.temps ≡ d.temps)
  unfolding mutate_json_file read_json_file
  mutate_json_file-IsMutation options d = read_file-Keeps options d.file d refl
