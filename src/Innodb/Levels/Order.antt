-- ===== src/Innodb/Levels/Order.antt =====
-- The latching order levels of storage/innobase/include/sync0sync.h (mysql/mysql-5.6.10-beta).
use htmsql.Prelude.{ℕ}

abbrev pub sync_no_order_check : ℕ
sync_no_order_check = 3000

abbrev pub sync_level_varying : ℕ
sync_level_varying = 2000

abbrev pub sync_trx_i_s_rwlock : ℕ
sync_trx_i_s_rwlock = 1910

abbrev pub sync_trx_i_s_last_read : ℕ
sync_trx_i_s_last_read = 1900

abbrev pub sync_file_format_tag : ℕ
sync_file_format_tag = 1200

abbrev pub sync_dict_operation : ℕ
sync_dict_operation = 1010

abbrev pub sync_fts_cache : ℕ
sync_fts_cache = 1005

abbrev pub sync_dict : ℕ
sync_dict = 1000

abbrev pub sync_dict_autoinc_mutex : ℕ
sync_dict_autoinc_mutex = 999

abbrev pub sync_stats_auto_recalc : ℕ
sync_stats_auto_recalc = 997

abbrev pub sync_dict_header : ℕ
sync_dict_header = 995

abbrev pub sync_ibuf_header : ℕ
sync_ibuf_header = 914

abbrev pub sync_ibuf_pess_insert_mutex : ℕ
sync_ibuf_pess_insert_mutex = 912

abbrev pub sync_index_tree : ℕ
sync_index_tree = 900

abbrev pub sync_tree_node_new : ℕ
sync_tree_node_new = 892

abbrev pub sync_tree_node_from_hash : ℕ
sync_tree_node_from_hash = 891

abbrev pub sync_tree_node : ℕ
sync_tree_node = 890

abbrev pub sync_purge_latch : ℕ
sync_purge_latch = 800

abbrev pub sync_trx_undo : ℕ
sync_trx_undo = 700

abbrev pub sync_rseg : ℕ
sync_rseg = 600

abbrev pub sync_rseg_header_new : ℕ
sync_rseg_header_new = 591

abbrev pub sync_rseg_header : ℕ
sync_rseg_header = 590

abbrev pub sync_trx_undo_page : ℕ
sync_trx_undo_page = 570

abbrev pub sync_extern_storage : ℕ
sync_extern_storage = 500

abbrev pub sync_fsp : ℕ
sync_fsp = 400

abbrev pub sync_fsp_page : ℕ
sync_fsp_page = 395

abbrev pub sync_ibuf_mutex : ℕ
sync_ibuf_mutex = 370

abbrev pub sync_ibuf_index_tree : ℕ
sync_ibuf_index_tree = 360

abbrev pub sync_ibuf_tree_node_new : ℕ
sync_ibuf_tree_node_new = 359

abbrev pub sync_ibuf_tree_node : ℕ
sync_ibuf_tree_node = 358

abbrev pub sync_ibuf_bitmap_mutex : ℕ
sync_ibuf_bitmap_mutex = 351

abbrev pub sync_ibuf_bitmap : ℕ
sync_ibuf_bitmap = 350

abbrev pub sync_index_online_log : ℕ
sync_index_online_log = 340

abbrev pub sync_lock_wait_sys : ℕ
sync_lock_wait_sys = 300

abbrev pub sync_lock_sys : ℕ
sync_lock_sys = 299

abbrev pub sync_trx_sys : ℕ
sync_trx_sys = 298

abbrev pub sync_trx : ℕ
sync_trx = 297

abbrev pub sync_threads : ℕ
sync_threads = 295

abbrev pub sync_rec_lock : ℕ
sync_rec_lock = 294

abbrev pub sync_trx_sys_header : ℕ
sync_trx_sys_header = 290

abbrev pub sync_purge_queue : ℕ
sync_purge_queue = 200

abbrev pub sync_log : ℕ
sync_log = 170

abbrev pub sync_log_flush_order : ℕ
sync_log_flush_order = 147

abbrev pub sync_recv : ℕ
sync_recv = 168

abbrev pub sync_fts_cache_init : ℕ
sync_fts_cache_init = 166

abbrev pub sync_fts_bg_threads : ℕ
sync_fts_bg_threads = 165

abbrev pub sync_fts_optimize : ℕ
sync_fts_optimize = 164

abbrev pub sync_work_queue : ℕ
sync_work_queue = 162

abbrev pub sync_search_sys : ℕ
sync_search_sys = 160

abbrev pub sync_buf_pool : ℕ
sync_buf_pool = 150

abbrev pub sync_buf_page_hash : ℕ
sync_buf_page_hash = 149

abbrev pub sync_buf_block : ℕ
sync_buf_block = 146

abbrev pub sync_buf_flush_list : ℕ
sync_buf_flush_list = 145

abbrev pub sync_doublewrite : ℕ
sync_doublewrite = 140

abbrev pub sync_any_latch : ℕ
sync_any_latch = 135

abbrev pub sync_mem_hash : ℕ
sync_mem_hash = 131

abbrev pub sync_mem_pool : ℕ
sync_mem_pool = 130
