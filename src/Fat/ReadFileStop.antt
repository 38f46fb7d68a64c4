-- ===== src/Fat/ReadFileStop.antt =====
-- `FAT_read_content2buffer_stop` of src/kernel/filesystems/fat.c on an open file, against the read
-- without a symbol.
use cordell_os.Base.{
  ℕ, zero, suc, ◌+◌, ◌-◌, ◌*◌, ◌/◌, ◌%◌, ◌≡◌, ◌≢◌, refl, sym, ap, ◌∙◌, inl, inr, Bool, true, false,
  Option, none, some, List, [], ◌++◌, arith, ◌==◌, if◌then◌else◌, Bool-cases, min, u32,
}
use mathlib.Core.Path.{subst}
use cordell_os.Ata.{sector_size}
use cordell_os.Ata.Stop.{stop_symbol}
use cordell_os.Fat.Volume.{Volume, Outcome, done, halted, ◌>>=◌, read_fat}
use cordell_os.Fat.Content.{File, is_negative, content_cluster_at}
use cordell_os.Fat.Read.{cluster_read_range}
use cordell_os.Fat.ReadFile.{prepended, read_clusters, start_at, read_found, read_content2buffer}
use cordell_os.Fat.ReadStop.{
  copy_until, copied_first, IsCut, copy_until-IsCut, copy_until-append, cluster_read_range_stop,
  cluster_read_range_stop_lem,
}

-- What `FAT_read_content2buffer_stop` gives: the bytes that it copies, the number that it returns,
-- whether it has set `*stop` to 16, and the file.
pub record StopRead : Type 0 where
  pub bytes : List ℕ
  pub count : ℕ
  pub met : Bool
  pub file : File

-- The bytes of a cluster before those of the next ones.
abbrev pub stop_joined : List ℕ → ℕ → Option StopRead → Option StopRead
stop_joined bytes copy_size none = none
stop_joined bytes copy_size (some more) =
    some (record more { bytes = bytes ++ more.bytes; count = copy_size + more.count })

-- The end of a round: where `*stop` is not 16, the next clusters follow. The number returned counts a
-- cluster as read whole.
abbrev pub round_ended :
    ℕ
    → ℕ
    → File
    → List ℕ × Bool
    → (Unit {0} → Outcome (Option StopRead))
    → Outcome (Option StopRead)
round_ended stop copy_size f (bytes, true) rest =
    done (some (record { bytes = bytes; count = copy_size; met = true; file = f }))
round_ended stop copy_size f (bytes, false) rest =
    if stop == stop_symbol
    then done (some (record { bytes = bytes; count = copy_size; met = false; file = f }))
    else (rest tt >>= λ r. done (stop_joined bytes copy_size r))

-- A round from the bytes of its cluster on.
abbrev pub round_found :
    ℕ
    → ℕ
    → File
    → (Unit {0} → Outcome (Option StopRead))
    → Option (List ℕ × Bool)
    → Outcome (Option StopRead)
round_found stop copy_size f rest none = done none
round_found stop copy_size f rest (some found) = round_ended stop copy_size f found rest

-- Its loop: the clusters left, the index and the number of the first of
-- them, the seek in it and the bytes left to copy.
unfoldable pub stop_clusters : Volume → ℕ → File → ℕ → ℕ → ℕ → ℕ → ℕ → Outcome (Option StopRead)
stop_clusters v zero f i cluster data_seek size stop =
    done (some (record { bytes = []; count = 0; met = false; file = f }))
stop_clusters v (suc left) f i cluster data_seek size stop =
    let copy_size = min (v.fat.cluster_size - data_seek) size in
    let cached = record f { cached_cluster_index = i; cached_cluster = cluster } in
    let rest : Unit {0} → Outcome (Option StopRead) = λ u. read_fat v cluster >>= λ next.
    stop_clusters v left cached (i + 1) next 0 (size - copy_size) stop in
    let round = cluster_read_range_stop v cluster data_seek copy_size stop >>= λ r.
    round_found stop copy_size cached rest r in
    if size == 0
    then done (some (record { bytes = []; count = 0; met = false; file = f }))
    else if is_negative cluster
    then done none
    else round

-- `FAT_read_content2buffer_stop` on an open file.
abbrev pub stop_with : Volume → File → ℕ → ℕ → ℕ → ℕ → Outcome (Option StopRead)
stop_with v f bytes_per_cluster offset size stop =
    content_cluster_at v f (offset / bytes_per_cluster) >>= λ found.
    stop_clusters v (f.data_size - offset / bytes_per_cluster) (start_at f found).1
      (offset / bytes_per_cluster) (start_at f found).0 (offset % bytes_per_cluster) size stop

unfoldable pub read_content2buffer_stop : Volume → File → ℕ → ℕ → ℕ → Outcome (Option StopRead)
read_content2buffer_stop v f offset size stop =
    stop_with v f (u32 (v.fat.sectors_per_cluster * sector_size)) offset size stop

-- The bytes of the result are those given up to the symbol.
record CutAt (stop : ℕ) (bytes : List ℕ) (o : Outcome (Option StopRead)) : Type 0 where
  result : StopRead
  returned : o ≡ done (some result)
  same : (result.bytes, result.met) ≡ copy_until stop bytes

abbrev or_empty : Option (List ℕ × Bool) → List ℕ × Bool
or_empty none = ([], false)
or_empty (some p) = p

found_first :
    (stop : ℕ) (bytes more : List ℕ) (found : List ℕ × Bool)
    → copy_until stop bytes ≡ found
    → or_empty (copied_first found (some (copy_until stop more))) ≡ copy_until stop (bytes ++ more)
found_first stop bytes more found e =
    sym (ap (λ p. or_empty (copied_first p (some (copy_until stop more)))) e)
    ∙ ap or_empty (copy_until-append stop bytes more)

-- The end of a round whose symbol was looked for in `bytes`.
round_ended-CutAt :
    (stop copy_size : ℕ) (f : File) (bytes more : List ℕ) (found : List ℕ × Bool)
    → stop ≢ stop_symbol
    → copy_until stop bytes ≡ found
    → (rest : Unit {0} → Outcome (Option StopRead)) → CutAt stop more (rest tt)
    → CutAt stop (bytes ++ more) (round_ended stop copy_size f found rest)
round_ended-CutAt stop copy_size f bytes more (here, true) other e rest cut = record {
  result = record { bytes = here; count = copy_size; met = true; file = f };
  returned = refl;
  same = found_first stop bytes more (here, true) e;
}
round_ended-CutAt stop copy_size f bytes more (here, false) other e rest cut = record {
  result = record cut.result {
    bytes = here ++ cut.result.bytes;
    count = copy_size + cut.result.count;
  };
  returned =
      let differs : (stop == stop_symbol) ≡ false = ground arith in
      simp differs (ap (λ o. o >>= λ r. done (stop_joined here copy_size r)) cut.returned);
  same = ap (λ p. (here ++ p.0, p.1)) cut.same ∙ found_first stop bytes more (here, false) e;
}

abbrev bytes_of : Outcome (Option (List ℕ × File)) → List ℕ
bytes_of (done (some (bytes, g))) = bytes
bytes_of _ = []

-- The rounds behind the first, by what the table and the next clusters give.
rest_CutAt :
    (stop : ℕ) (bytes : List ℕ) (next : Outcome ℕ) (plain : ℕ → Outcome (Option (List ℕ × File)))
    (rest : ℕ → Outcome (Option StopRead))
    → ((c : ℕ) (more : List ℕ) (g : File)
        → plain c ≡ done (some (more, g))
        → CutAt stop more (rest c))
    → (all : List ℕ) (g : File)
    → (next >>= λ c. plain c >>= λ r. done (prepended bytes r)) ≡ done (some (all, g))
    → (more : List ℕ) × CutAt stop more (next >>= rest) × (bytes ++ more ≡ all)
rest_CutAt stop bytes halted plain rest h all g e = absurd (ground arith)
rest_CutAt stop bytes (done c) plain rest h all g e = by_plain (plain c) refl e
  where
    by_plain :
        (o : Outcome (Option (List ℕ × File)))
        → plain c ≡ o
        → (o >>= λ r. done (prepended bytes r)) ≡ done (some (all, g))
        → (more : List ℕ) × CutAt stop more (rest c) × (bytes ++ more ≡ all)
    by_plain halted p e = absurd (ground arith)
    by_plain (done none) p e = absurd (ground arith)
    by_plain (done (some (more, g'))) p e = (more, h c more g' p, ap bytes_of e)

round_CutAt :
    (stop copy_size : ℕ) (f : File) (read : Outcome (Option (List ℕ)))
    (read' : Outcome (Option (List ℕ × Bool))) (next : Outcome ℕ)
    (plain : ℕ → Outcome (Option (List ℕ × File))) (rest : ℕ → Outcome (Option StopRead))
    → stop ≢ stop_symbol
    → ((bytes : List ℕ) → read ≡ done (some bytes) → read' ≡ done (some (copy_until stop bytes)))
    → ((c : ℕ) (more : List ℕ) (g : File)
        → plain c ≡ done (some (more, g))
        → CutAt stop more (rest c))
    → (all : List ℕ) (g : File)
    → (read >>= λ r. elim r [
      | none ↦ done none
      | some bytes ↦ next >>= λ c. plain c >>= λ more. done (prepended bytes more)
    ])
      ≡ done (some (all, g))
    → CutAt stop all (read' >>= λ r. round_found stop copy_size f (λ u. next >>= rest) r)
round_CutAt stop copy_size f halted read' next plain rest other h k all g e = absurd (ground arith)
round_CutAt stop copy_size f (done none) read' next plain rest other h k all g e =
    absurd (ground arith)
round_CutAt stop copy_size f (done (some bytes)) read' next plain rest other h k all g e =
    let (more, cut, whole) = rest_CutAt stop bytes next plain rest k all g e in
    let tail : Unit {0} → Outcome (Option StopRead) = λ u. next >>= rest in
    subst (λ o. CutAt stop all (o >>= λ r. round_found stop copy_size f tail r))
      (sym (h bytes refl))
      (subst (λ l. CutAt stop l (round_ended stop copy_size f (copy_until stop bytes) tail)) whole
        (round_ended-CutAt stop copy_size f bytes more (copy_until stop bytes) other refl tail cut))

nothing_read :
    (stop : ℕ) (f : File) (all : List ℕ)
    → [] ≡ all
    → CutAt stop all (done (some (record { bytes = []; count = 0; met = false; file = f })))
unfolding copy_until
nothing_read stop f all e = record {
  result = record { bytes = []; count = 0; met = false; file = f };
  returned = refl;
  same = ap (copy_until stop) e;
}

stop_clusters-CutAt :
    (v : Volume) (stop left : ℕ) (f : File) (i cluster data_seek size : ℕ) (all : List ℕ) (g : File)
    → stop ≢ stop_symbol
    → read_clusters v left f i cluster data_seek size ≡ done (some (all, g))
    → CutAt stop all (stop_clusters v left f i cluster data_seek size stop)
unfolding read_clusters stop_clusters
stop_clusters-CutAt v stop zero f i cluster data_seek size all g other =
    λ e. nothing_read stop f all (ap bytes_of e)
stop_clusters-CutAt v stop (suc left) f i cluster data_seek size all g other =
    elim (Bool-cases (size == 0)) [
      | inl nothing ↦ simp nothing (λ e. nothing_read stop f all (ap bytes_of e))
      | inr more ↦ elim (Bool-cases (is_negative cluster)) [
        | inl bad ↦ simp (more, bad) (λ e. absurd (ground arith))
        | inr fine ↦
            simp (more, fine)
              (round_CutAt stop (min (v.fat.cluster_size - data_seek) size)
                (record f { cached_cluster_index = i; cached_cluster = cluster })
                (cluster_read_range v cluster data_seek (min (v.fat.cluster_size - data_seek) size))
                (cluster_read_range_stop v cluster data_seek
                  (min (v.fat.cluster_size - data_seek) size) stop)
                (read_fat v cluster)
                (λ next.
                  read_clusters v left
                    (record f { cached_cluster_index = i; cached_cluster = cluster }) (i + 1) next 0
                    (size - min (v.fat.cluster_size - data_seek) size))
                (λ next.
                  stop_clusters v left
                    (record f { cached_cluster_index = i; cached_cluster = cluster }) (i + 1) next 0
                    (size - min (v.fat.cluster_size - data_seek) size) stop)
                other
                (cluster_read_range_stop_lem v cluster data_seek
                  (min (v.fat.cluster_size - data_seek) size) stop)
                (λ next more' g' e.
                  stop_clusters-CutAt v stop left
                    (record f { cached_cluster_index = i; cached_cluster = cluster }) (i + 1) next 0
                    (size - min (v.fat.cluster_size - data_seek) size) more' g' other e)
                all g)
      ]
    ]

-- Where `FAT_read_content2buffer` copies some bytes, `FAT_read_content2buffer_stop` with a symbol other
-- than 16 returns. Where it has not set `*stop` to 16, it copies all of those bytes and none of them is
-- the symbol. Where it has, it copies those before the first that is the symbol, and that one.
pub read_content2buffer_stop_lem :
    (v : Volume) (f : File) (offset size stop : ℕ) (all : List ℕ) (g : File)
    → stop ≢ stop_symbol
    → read_content2buffer v f offset size ≡ done (some (all, g))
    → (r : StopRead) × (read_content2buffer_stop v f offset size stop ≡ done (some r))
      × IsCut stop all (r.bytes, r.met)
unfolding read_content2buffer read_content2buffer_stop
read_content2buffer_stop_lem v f offset size stop all g other e =
    let per_cluster = u32 (v.fat.sectors_per_cluster * sector_size) in
    let cut = by_start (content_cluster_at v f (offset / per_cluster)) e in
    (cut.result, cut.returned, subst (IsCut stop all) (sym cut.same) (copy_until-IsCut stop all))
  where
    by_start :
        (m : Outcome (Option (ℕ × File)))
        → read_found v f
            (offset / u32 (v.fat.sectors_per_cluster * sector_size))
            (offset % u32 (v.fat.sectors_per_cluster * sector_size))
            size
            m
          ≡ done (some (all, g))
        → CutAt stop all (
            m >>= λ found.
            stop_clusters v
              (f.data_size - offset / u32 (v.fat.sectors_per_cluster * sector_size))
              (start_at f found).1
              (offset / u32 (v.fat.sectors_per_cluster * sector_size))
              (start_at f found).0
              (offset % u32 (v.fat.sectors_per_cluster * sector_size))
              size
              stop)
    by_start halted e = absurd (ground arith)
    by_start (done found) e =
        stop_clusters-CutAt v stop
          (f.data_size - offset / u32 (v.fat.sectors_per_cluster * sector_size))
          (start_at f found).1 (offset / u32 (v.fat.sectors_per_cluster * sector_size))
          (start_at f found).0 (offset % u32 (v.fat.sectors_per_cluster * sector_size)) size all g
          other e
