-- ===== src/Resize/Tests.antt =====
-- Tests of resizing.
use administracion_servicios.Prelude.{ℕ, ◌≡◌, refl, some, none, [], ◌∷◌, arith}
use administracion_servicios.Resize.{
  grow, shrink, Database, copy, copy_rows, pad, remove_front, remove_behind, grow_ring, shrink_ring,
  resize_target, rrd_resize,
}
use administracion_servicios.Resize.Kept.{Resized, rrd_resize_keeps}

-- two archives of one data source; the second has its newest row at the index 2
abbrev database : Database ℕ
database = record {
  version = 3;
  ds_cnt = 1;
  rras = record { row_cnt = 1; cur_row = 0 } ∷ record { row_cnt = 4; cur_row = 2 } ∷ [];
  cells = 50 ∷ 12 ∷ 13 ∷ 14 ∷ 11 ∷ [];
}

grow_test :
    rrd_resize 0 grow 1 2 database
    ≡ some (record database {
      rras = record { row_cnt = 1; cur_row = 0 } ∷ record { row_cnt = 6; cur_row = 2 } ∷ [];
      cells = 50 ∷ 12 ∷ 13 ∷ 14 ∷ 0 ∷ 0 ∷ 11 ∷ [];
    })
unfolding rrd_resize resize_target copy copy_rows pad remove_front remove_behind grow_ring
    shrink_ring
grow_test = refl

shrink_test :
    rrd_resize 0 shrink 1 2 database
    ≡ some (record database {
      rras = record { row_cnt = 1; cur_row = 0 } ∷ record { row_cnt = 2; cur_row = 1 } ∷ [];
      cells = 50 ∷ 13 ∷ 14 ∷ [];
    })
unfolding rrd_resize resize_target copy copy_rows pad remove_front remove_behind grow_ring
    shrink_ring
shrink_test = refl

too_much_test : rrd_resize 0 shrink 1 4 database ≡ none
unfolding rrd_resize
too_much_test = refl

rrd_resize_keeps_example : Resized 0 shrink 1 2 database (50 ∷ []) (11 ∷ 12 ∷ 13 ∷ 14 ∷ []) [] 4
rrd_resize_keeps_example =
    rrd_resize_keeps 0 shrink 1 2 database (50 ∷ []) (12 ∷ 13 ∷ 14 ∷ []) (11 ∷ []) [] 2 1
      (omega arith) refl refl refl refl refl refl refl
